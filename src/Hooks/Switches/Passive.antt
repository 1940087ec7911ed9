-- ===== src/Hooks/Switches/Passive.antt =====
-- In passive mode the proxy stays inert.

use ts3vasmanager.Hooks.Switches.{
  Switches, Surroundings, passive_on, new_switches, is_passive_mode, activate_proxy, begin_shutdown,
  read_force_active, ensure_proxy_active, mem_reserve, mem_special, force_virtual_alloc_min_size,
  has, is_exec_protect, says_off, env_mode, read_mode,
}
use ts3vasmanager.Prelude.{
  ℕ, refl, sym, inl, inr, true, false, Bool-cases, ◌≡◌, ◌∙◌, Bool, not, ltb, if◌then◌else◌, arith,
  Option, none, some, leb, ◌&&◌, ◌||◌, ◌==◌,
}

-- What the hooks, the heartbeat, the installation and the shutdown do to the switches.
pub data SwitchStep (env : Surroundings) : Switches → Switches → Type 0 where
  activates : (s : Switches) → SwitchStep env s (activate_proxy env s)
  ensures :
      (size type protect : ℕ) (s : Switches)
      → SwitchStep env s (ensure_proxy_active env size type protect s)
  asks : (s : Switches) → SwitchStep env s (is_passive_mode env s).1
  shuts_down : (s : Switches) → SwitchStep env s (begin_shutdown s)

-- The switches that can be reached from the start of the process.
pub data SwitchReach (env : Surroundings) : Switches → Type 0 where
  start : SwitchReach env new_switches
  next : {s t : Switches} → SwitchReach env s → SwitchStep env s t → SwitchReach env t

-- The forced activation of the environment: on, unless its variable begins with 0, f, F, n or N.
abbrev pub force_allowed : Surroundings → Bool
force_allowed env = elim env.force_env [
  | none ↦ true
  | some c ↦ not (c == 48 || (c == 102 || (c == 70 || (c == 110 || c == 78))))
]

-- The modes that were read are the environment's, and a proxy that is active was allowed to be.
pub record IsGated (env : Surroundings) (s : Switches) : Type 0 where
  pub cached : s.passive.init ≡ true → s.passive.on ≡ passive_on env
  pub forced : s.force_active.init ≡ true → s.force_active.on ≡ force_allowed env
  pub allowed : s.proxy_active ≡ true → passive_on env ≡ false

is_passive_mode-env :
    (env : Surroundings) (s : Switches)
    → IsGated env s
    → ((is_passive_mode env s).0 ≡ passive_on env) × IsGated env (is_passive_mode env s).1
unfolding is_passive_mode
is_passive_mode-env env s g = elim (Bool-cases s.passive.init) [
  | inl read ↦ simp read (g.cached read, g)
  | inr fresh ↦
      simp fresh (refl, record { cached = λ _. refl; forced = g.forced; allowed = g.allowed })
]

IsGated-activate_proxy :
    (env : Surroundings) (s : Switches) → IsGated env s → IsGated env (activate_proxy env s)
unfolding activate_proxy
IsGated-activate_proxy env s g =
    let (e, g') = is_passive_mode-env env s g in
    elim (Bool-cases (is_passive_mode env s).0) [
      | inl passive ↦ simp passive g'
      | inr active ↦
          simp active
            (record { cached = g'.cached; forced = g'.forced; allowed = λ _. sym e ∙ active })
    ]

either : (P : Switches → Type 0) (b : Bool) (s t : Switches) → P s → P t → P (if b then s else t)
either P true s t p q = p
either P false s t p q = q

read_force_active-env :
    (env : Surroundings) (s : Switches)
    → IsGated env s
    → ((read_force_active env s).0 ≡ force_allowed env) × IsGated env (read_force_active env s).1
unfolding read_force_active read_mode env_mode says_off
read_force_active-env env s g = elim (Bool-cases s.force_active.init) [
  | inl read ↦ simp read (
    g.forced read,
    record { cached = g.cached; forced = λ _. g.forced read; allowed = g.allowed },
  )
  | inr fresh ↦
      simp fresh
        (from_env, record { cached = g.cached; forced = λ _. from_env; allowed = g.allowed })
]
  where
    from_env : env_mode true env.force_env ≡ force_allowed env
    from_env = go env.force_env
      where
        go :
            (o : Option ℕ)
            → env_mode true o ≡ elim o [
              | none ↦ true
              | some c ↦ not (c == 48 || (c == 102 || (c == 70 || (c == 110 || c == 78))))
            ]
        go none = refl
        go (some c) = refl

IsGated-ensure :
    (env : Surroundings) (size type protect : ℕ) (s : Switches)
    → IsGated env s
    → IsGated env (ensure_proxy_active env size type protect s)
unfolding ensure_proxy_active
IsGated-ensure env size type protect s g = either (IsGated env) s.proxy_active _ _ g (
    either (IsGated env) (not (read_force_active env s).0) _ _ read (
      either (IsGated env) (not (has type mem_reserve)) _ _ read (
        either (IsGated env) (ltb size force_virtual_alloc_min_size) _ _ read (
          either (IsGated env) (has type mem_special) _ _ read (
            either (IsGated env) (is_exec_protect protect) _ _ read
              (IsGated-activate_proxy env (read_force_active env s).1 read))))))
  where
    read : IsGated env (read_force_active env s).1
    read = (read_force_active-env env s g).1

SwitchStep-IsGated :
    {env : Surroundings} {s t : Switches} → SwitchStep env s t → IsGated env s → IsGated env t
unfolding begin_shutdown
SwitchStep-IsGated {env} (activates s) g = IsGated-activate_proxy env s g
SwitchStep-IsGated {env} (ensures size type protect s) g = IsGated-ensure env size type protect s g
SwitchStep-IsGated {env} (asks s) g = (is_passive_mode-env env s g).1
SwitchStep-IsGated {env} (shuts_down s) g = record {
  cached = g.cached;
  forced = g.forced;
  allowed = g.allowed;
}

pub SwitchReach-IsGated : {env : Surroundings} {s : Switches} → SwitchReach env s → IsGated env s
SwitchReach-IsGated start = record { cached = λ e. cc; forced = λ e. cc; allowed = λ e. cc }
SwitchReach-IsGated (next r st) = SwitchStep-IsGated st (SwitchReach-IsGated r)

activate-active :
    (env : Surroundings) (s : Switches)
    → IsGated env s
    → passive_on env ≡ false
    → (activate_proxy env s).proxy_active ≡ true
unfolding activate_proxy
activate-active env s g off = let e = (is_passive_mode-env env s g).0 ∙ off in simp e refl

-- The reserves that activate the proxy: unless the process is passive or the forced activation is
-- switched off, those of at least 4 KB that are neither physical nor in large pages nor executable.
abbrev pub is_opening : Surroundings → ℕ → ℕ → ℕ → Bool
is_opening env size type protect =
    not (passive_on env)
    && (force_allowed env
        && (has type mem_reserve
            && (leb 4096 size && (not (has type mem_special) && not (has protect 0xF0)))))

inactive-opening :
    (env : Surroundings) (s : Switches)
    → IsGated env s
    → s.proxy_active ≡ false
    → (activate_proxy env s).proxy_active ≡ not (passive_on env)
unfolding activate_proxy is_passive_mode
inactive-opening env s g off = elim (Bool-cases (passive_on env)) [
  | inl passive ↦ elim (Bool-cases s.passive.init) [
    | inl read ↦ let on = g.cached read ∙ passive in simp (read, on, passive) off
    | inr fresh ↦ simp (fresh, passive) off
  ]
  | inr active ↦ elim (Bool-cases s.passive.init) [
    | inl read ↦ let on = g.cached read ∙ active in simp (read, on, active) refl
    | inr fresh ↦ simp (fresh, active) refl
  ]
]

-- The tests in order, of what each outcome leaves.
tested :
    (a f r l big x : Bool) (s t u : Switches) (p : Bool)
    → s.proxy_active ≡ a
    → t.proxy_active ≡ a
    → (a ≡ false → u.proxy_active ≡ p)
    → (if a
        then s
        else if not f
        then t
        else if not r
        then t
        else if l
        then t
        else if big
        then t
        else if x
        then t
        else u).proxy_active
      ≡ (a || (p && (f && (r && (not l && (not big && not x))))))
tested true f r l big x s t u p hs ht hu = hs
tested false false r l big x s t u p hs ht hu = ht ∙ ground arith
tested false true false l big x s t u p hs ht hu = ht ∙ ground arith
tested false true true true big x s t u p hs ht hu = ht ∙ ground arith
tested false true true false true x s t u p hs ht hu = ht ∙ ground arith
tested false true true false false true s t u p hs ht hu = ht ∙ ground arith
tested false true true false false false s t u p hs ht hu = hu refl ∙ ground arith

read_force_active-same :
    (env : Surroundings) (s : Switches) → (read_force_active env s).1.proxy_active ≡ s.proxy_active
unfolding read_force_active
read_force_active-same env s = refl

-- From every state that can be reached, `EnsureProxyActiveForVirtualPath` leaves the proxy active
-- exactly when it was active or the call is an opening one.
pub ensure-active :
    {env : Surroundings} {s : Switches} (size type protect : ℕ)
    → SwitchReach env s
    → (ensure_proxy_active env size type protect s).proxy_active
      ≡ (s.proxy_active || is_opening env size type protect)
unfolding ensure_proxy_active is_exec_protect
ensure-active {env} {s} size type protect r =
    let g = SwitchReach-IsGated r in
    let (force, g') = read_force_active-env env s g in
    let same = read_force_active-same env s in
    let big : leb 4096 size ≡ not (ltb size force_virtual_alloc_min_size) = ground arith in
    rw (sym force, big)
      (tested s.proxy_active (read_force_active env s).0 (has type mem_reserve)
        (ltb size force_virtual_alloc_min_size) (has type mem_special) (is_exec_protect protect) s
        (read_force_active env s).1 (activate_proxy env (read_force_active env s).1)
        (not (passive_on env)) refl same
        (λ off. inactive-opening env (read_force_active env s).1 g' (same ∙ off)))
