-- ===== src/ProxyGc/Cadence.antt =====
-- How far apart two requests are.
use ts3vasmanager.ProxyGc.{
  pressure_reason, proactive_reason, Gc, Reason, interval, maybe_request_mono_collect, since_last,
  is_pressure,
}
use ts3vasmanager.Prelude.{
  ℕ, none, some, ◌-◌, ◌^◌, ◌≤◌, ◌<◌, ◌≡◌, ◌↔◌, refl, inl, inr, Bool, true, false, not, arith, ltb,
  Bool-cases, ltb→lt, if◌then◌else◌, Option, sym, lt→ltb, ◌∙◌, ◌≢◌, List, [], leb, ◌&&◌, ◌∷◌, ap,
}

-- The two guards of a call.
abbrev decided : Bool → Bool → Reason → Gc → Gc → Option Reason × Gc
decided b c x g h = if b then (none, g) else (if c then (none, g) else (some x, h))

branch_taken :
    (b c : Bool) (x r : Reason) (g h : Gc)
    → (decided b c x g h).0 ≡ some r
    → (b ≡ false) × ((decided b c x g h).1 ≡ h)
branch_taken true c x r g h e = (cc, cc)
branch_taken false true x r g h e = (refl, cc)
branch_taken false false x r g h e = (refl, refl)

requested-last :
    (now largest : ℕ) (g : Gc) (r : Reason)
    → (maybe_request_mono_collect now largest g).0 ≡ some r
    → (not g.has_event ≡ false)
      × ((maybe_request_mono_collect now largest g).1 ≡ record g { last_gc_req_ms = now })
unfolding maybe_request_mono_collect
requested-last now largest g r e =
    branch_taken (not g.has_event) (ltb (since_last now g) (interval largest g)) _ r g _ e

some-ne-none : (x : Reason) → some x ≢ none
some-ne-none x e = cc

quiet : (n m : ℕ) (x : Reason) (g h : Gc) → ((decided false (ltb n m) x g h).0 ≡ none) ↔ (n < m)
quiet n m x g h = elim (Bool-cases (ltb n m)) [
  | inl t ↦ rw t (λ e. ltb→lt n m t, λ e. refl)
  | inr f ↦ rw f (
    λ e. elim (some-ne-none x e) [ ],
    λ e. let clash : true ≡ false = sym (lt→ltb n m e) ∙ f in cc,
  )
]

since-request :
    (now later : ℕ) (g : Gc)
    → 0 < now
    → now ≤ later
    → later < 2 ^ 64
    → since_last later (record g { last_gc_req_ms = now }) ≡ later - now
unfolding since_last
since-request now later g pos le low = ground arith

next_call :
    (now later largest : ℕ) (g : Gc)
    → not g.has_event ≡ false
    → 0 < now
    → now ≤ later
    → later < 2 ^ 64
    → ((maybe_request_mono_collect later largest (record g { last_gc_req_ms = now })).0 ≡ none)
      ↔ (later - now < interval largest g)
unfolding maybe_request_mono_collect interval is_pressure
next_call now later largest g on pos le low =
    simp (on, since-request now later g pos le low) (quiet (later - now) (interval largest g) _ _ _)

-- The pressure that the span of a call makes, and the milliseconds that it asks for.
abbrev pub pressed : ℕ → Gc → Bool
pressed largest g = ltb 0 largest && ltb largest g.pressure_bytes

abbrev pub gap : ℕ → Gc → ℕ
gap largest g = if pressed largest g then g.pressure_interval_ms else g.proactive_interval_ms

-- After a request at a tick that is not zero, a call at a later tick makes another request exactly
-- when the interval for that call's span has passed: the pressure interval while the largest free
-- span is positive and below the pressure bound, the proactive one otherwise.
pub request-spaced :
    (now later largest largest' : ℕ) (g : Gc) (r : Reason)
    → (maybe_request_mono_collect now largest g).0 ≡ some r
    → 0 < now
    → now ≤ later
    → later < 2 ^ 64
    → let g' = (maybe_request_mono_collect now largest g).1 in
      ((maybe_request_mono_collect later largest' g').0 ≡ none) ↔ (later - now < gap largest' g)
unfolding interval is_pressure
request-spaced now later largest largest' g r e pos le low =
    let (on, last) = requested-last now largest g r e in
    rw last (next_call now later largest' g on pos le low)

-- The answers to calls at ticks, each with its largest free span.
abbrev pub answers : List (ℕ × ℕ) → Gc → List (Option Reason)
answers [] g = []
answers ((now, largest) ∷ calls) g =
    let r = maybe_request_mono_collect now largest g in r.0 ∷ answers calls r.1

-- The answers that are due, of the tick of the last request, if there was one.
abbrev pub overdue : Gc → Option ℕ → ℕ → ℕ → Bool
overdue g none now largest = true
overdue g (some last) now largest = leb (gap largest g) (now - last)

abbrev pub due : Gc → Option ℕ → List (ℕ × ℕ) → List (Option Reason)
due g last [] = []
due g last ((now, largest) ∷ calls) =
    let requested = due g (some now) calls in
    let kept = due g last calls in
    if overdue g last now largest
    then some (if pressed largest g then pressure_reason else proactive_reason) ∷ requested
    else none ∷ kept

-- Ticks of 64 bits that do not fall.
abbrev pub Rising : ℕ → List (ℕ × ℕ) → Type 0
Rising low [] = Unit
Rising low ((now, largest) ∷ calls) = (low ≤ now) × (now < 2 ^ 64) × Rising now calls

guarded :
    (h w o : Bool) (x : Reason) (g g' : Gc)
    → h ≡ true
    → w ≡ not o
    → decided (not h) w x g g' ≡ (if o then (some x, g') else (none, g))
guarded h w true x g g' e f = rw (e, f) refl
guarded h w false x g g' e f = rw (e, f) refl

-- The tick that is stored for the last request.
abbrev Stored : ℕ → ℕ → Option ℕ → Type 0
Stored low t none = t ≡ 0
Stored low t (some last) = (t ≡ last) × (0 < last) × (last ≤ low)

later-Stored : (low t now : ℕ) (o : Option ℕ) → Stored low t o → low ≤ now → Stored now t o
later-Stored low t now none st le = st
later-Stored low t now (some last) (e, pos, before) le = (e, pos, omega arith)

module _ (g : Gc) (on : g.has_event ≡ true)
    (fits : (g.pressure_interval_ms < 2 ^ 64) × (g.proactive_interval_ms < 2 ^ 64)) where
  gap-small : (largest : ℕ) → gap largest g < 2 ^ 64
  gap-small largest = elim (Bool-cases (pressed largest g)) [
    | inl pressure ↦ rw pressure fits.0
    | inr relaxed ↦ rw relaxed fits.1
  ]

  waits :
      (low t now largest : ℕ) (o : Option ℕ)
      → Stored low t o
      → low ≤ now
      → now < 2 ^ 64
      → ltb (since_last now (record g { last_gc_req_ms = t })) (gap largest g)
        ≡ not (overdue g o now largest)
  unfolding since_last
  waits low t now largest none e le small =
      let bound = gap-small largest in
      let most : since_last now (record g { last_gc_req_ms = t }) ≡ 2 ^ 64 - 1 = ground arith in
      rw most (ground arith)
  waits low t now largest (some last) (e, pos, before) le small =
      let since = since-request last now g pos (omega arith) small in rw (e, since) (ground arith)

  -- One call.
  call-due :
      (low t now largest : ℕ) (o : Option ℕ)
      → Stored low t o
      → low ≤ now
      → now < 2 ^ 64
      → maybe_request_mono_collect now largest (record g { last_gc_req_ms = t }) ≡ (
          if overdue g o now largest
          then (
            some (if pressed largest g then pressure_reason else proactive_reason),
            record g { last_gc_req_ms = now },
          )
          else (none, record g { last_gc_req_ms = t }))
  unfolding maybe_request_mono_collect interval is_pressure
  call-due low t now largest o st le small =
      guarded g.has_event (ltb (since_last now (record g { last_gc_req_ms = t })) (gap largest g))
        (overdue g o now largest) _ _ _ on (waits low t now largest o st le small)

  answers-due :
      (low t : ℕ) (o : Option ℕ) (calls : List (ℕ × ℕ))
      → Stored low t o
      → 0 < low
      → Rising low calls
      → answers calls (record g { last_gc_req_ms = t }) ≡ due g o calls
  answers-due low t o [] st pos r = refl
  answers-due low t o ((now, largest) ∷ calls) st pos (le, small, r) =
      let e = call-due low t now largest o st le small in
      elim (Bool-cases (overdue g o now largest)) [
        | inl late ↦
            rw (e, late)
              (ap (◌∷◌ (some (if pressed largest g then pressure_reason else proactive_reason))) (
                answers-due now now (some now) calls (refl, omega arith, omega arith) (omega arith)
                  r))
        | inr early ↦
            rw (e, early)
              (ap (◌∷◌ none)
                (answers-due now t o calls (later-Stored low t now o st le) (omega arith) r))
      ]

-- From the start, where no request was made, the calls at ticks of 64 bits that are not zero and do
-- not fall are answered as is due, given that there is an event and the intervals have 64 bits. The
-- first call requests a collection; each later one requests one exactly when the time since the
-- last request is not below the pressure interval, if the largest free span is positive and below
-- the pressure bound, or the proactive interval, if it is not; and the reason is told by the same
-- test.
pub answers-are_due :
    (g : Gc) (calls : List (ℕ × ℕ))
    → g.has_event ≡ true
    → (g.pressure_interval_ms < 2 ^ 64) × (g.proactive_interval_ms < 2 ^ 64)
    → Rising 1 calls
    → answers calls (record g { last_gc_req_ms = 0 }) ≡ due g none calls
answers-are_due g calls on fits r = answers-due g on fits 1 0 none calls refl (omega arith) r
