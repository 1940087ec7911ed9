-- ===== src/ProxyAllocatorTrace/Ring.antt =====
-- What the ring holds.
use ts3vasmanager.ProxyAllocatorTrace.{
  Mark, TraceRec, Trace, emit, emit_with, trace_capacity, empty_rec, initialize_trace_with,
  initialize_trace,
}
use ts3vasmanager.Prelude.{
  ℕ, ==_false, subst, zero, suc, refl, ap, inl, inr, true, none, some, List, arith, Bool-cases,
  length, get_or, set, replicate, length-set, add32, add64, ==_iff, ◌+◌, ◌%◌, ◌^◌, ◌≤◌, ◌<◌, ◌≡◌,
  ◌∙◌, ◌==◌, get_or-set_self, length-replicate, get_or-set_ne,
}

-- The record of the call with this index.
abbrev pub rec_of : (ℕ → ℕ × Mark) → ℕ → TraceRec
rec_of calls j = record { mark = (calls j).1; span_id = (calls j).0; seq = j + 1 }

module _ (calls : ℕ → ℕ × Mark) where
  -- The first n of the calls of `Emit`.
  unfoldable pub emits : ℕ → Trace → Trace
  emits zero t = t
  emits (suc n) t = emit (calls n).0 (calls n).1 (emits n t)

  -- The ring after n calls: the last 8192 of them stand in it, each in the slot of its index.
  pub record IsRing (n : ℕ) (t : Trace) (records : List TraceRec) : Type 0 where
    pub held : t.buf ≡ some records
    pub width : length records ≡ trace_capacity
    pub cap : t.cap ≡ trace_capacity
    pub index : (t.write_idx + 1) % 2 ^ 32 ≡ n % 2 ^ 32
    pub seq : t.trace_seq ≡ n
    pub last :
        (j : ℕ)
        → j < n
        → n ≤ j + trace_capacity
        → get_or records (j % trace_capacity) (empty_rec 0) ≡ rec_of calls j

  emit-IsRing :
      (n : ℕ) (t : Trace) (records : List TraceRec)
      → n + 1 < 2 ^ 64
      → IsRing n t records
      → IsRing
          (n + 1)
          (emit (calls n).0 (calls n).1 t)
          (set records (n % trace_capacity) (rec_of calls n))
  unfolding emit emit_with
  emit-IsRing n t records small r =
      let slot : add32 t.write_idx 1 % t.cap ≡ n % trace_capacity =
        ap (λ c. add32 t.write_idx 1 % c) r.cap ∙ omega (arith, r.index) in
      let seq : add64 t.trace_seq 1 ≡ n + 1 = omega (arith, r.seq) in
      rw (r.held, emit_with, slot, seq)
        (record {
          held = refl;
          width = length-set records (n % trace_capacity) (rec_of calls n) ∙ r.width;
          cap = r.cap;
          index = omega (arith, r.index);
          seq = refl;
          last = λ j lt near. elim (Bool-cases (j == n)) [
            | inl new ↦
                let e = (==_iff j n).0 new in
                rw e (
                  get_or-set_self records (n % trace_capacity) (rec_of calls n) (empty_rec 0)
                    (omega (arith, r.width)))
            | inr old ↦
                let ne = ==_false j n old in
                get_or-set_ne records (n % trace_capacity) (j % trace_capacity) (rec_of calls n)
                  (empty_rec 0) (omega (arith, ne, lt, near))
                ∙ r.last j (omega (arith, ne)) (omega (arith, near))
          ];
        })

  emits-IsRing :
      (n : ℕ) (t : Trace) (records : List TraceRec)
      → n < 2 ^ 64
      → IsRing 0 t records
      → (rs : List TraceRec) × IsRing n (emits n t) rs
  unfolding emits
  emits-IsRing zero t records small r = (records, r)
  emits-IsRing (suc n) t records small r =
      let (rs, k) = emits-IsRing n t records (omega arith) r in
      let one_more : n + 1 ≡ suc n = omega arith in
      (
        set rs (n % trace_capacity) (rec_of calls n),
        subst (λ x. IsRing x (emits (suc n) t) (set rs (n % trace_capacity) (rec_of calls n)))
            one_more (emit-IsRing n (emits n t) rs (omega arith) k),
      )

  start-IsRing :
      (now : ℕ) (t : Trace)
      → t.buf ≡ none
      → IsRing 0 (initialize_trace true now t) (replicate trace_capacity (empty_rec now))
  unfolding initialize_trace initialize_trace_with
  start-IsRing now t e =
      rw (e, initialize_trace_with)
        (record {
          held = refl;
          width = length-replicate trace_capacity (empty_rec now);
          cap = refl;
          index = refl;
          seq = refl;
          last = λ j lt near. let no : ⊥ = omega arith in elim no [ ];
        })

  -- After the trace is initialised and n calls of `Emit`, fewer than 2 ^ 64, the buffer holds 8192
  -- records, and each of the last 8192 calls stands in the slot of its index modulo 8192 with what
  -- it passed and with its sequence number, also when the 32-bit write index has wrapped.
  pub emits-last :
      (now n : ℕ) (t : Trace)
      → t.buf ≡ none
      → n < 2 ^ 64
      → (rs : List TraceRec) × ((emits n (initialize_trace true now t)).buf ≡ some rs)
        × (length rs ≡ trace_capacity)
        × ((j : ℕ)
            → j < n
            → n ≤ j + trace_capacity
            → get_or rs (j % trace_capacity) (empty_rec 0) ≡ rec_of calls j)
  emits-last now n t fresh small =
      let (rs, r) =
        emits-IsRing n (initialize_trace true now t) (replicate trace_capacity (empty_rec now))
          small (start-IsRing now t fresh) in
      (rs, r.held, r.width, r.last)
