-- ===== src/ProxyAllocator/SizeClasses/Keeps.antt =====
-- What the caches hold: a pop takes one block out, a push puts one in.
use ts3vasmanager.ProxyAllocator.FreeList.Bounds.{IsSlot}
use mathlib.Core.Option
use ts3vasmanager.Prelude.{
  ℕ, refl, inl, inr, some, List, [], arith, Option-cases, length, All, ◌+◌, ◌≤◌, ◌≡◌, ◌∷◌, ◌++◌,
  if◌then◌else◌, Option, none, Bool-cases, ◌-◌, ◌==◌, subst, zero, suc, true, false, leb, ==_iff,
  ◌∙◌, leb_false→lt, sym, ap, length-append, ◌<◌,
}
use ts3vasmanager.ProxyAllocator.FreeList.{Block, weigh}
use ts3vasmanager.ProxyAllocator.SizeClasses.{
  SizeClass, Push, pop_size_class, push_size_class, push_at, push_into, new_class, keep,
  max_cached_per_class, max_size_classes, has_class, emptied,
}

abbrev pub held : (Block → ℕ) → List SizeClass → ℕ
held w [] = 0
held w (c ∷ cs) = weigh w c.head + held w cs

-- A class counts its blocks, keeps to its cap, and holds slots of its own size.
pub record IsClass (base top gran : ℕ) (c : SizeClass) : Type 0 where
  pub counted : length c.head ≡ c.count
  pub capped : c.count ≤ max_cached_per_class
  pub slots : All (IsSlot base top gran) c.head
  pub sized : All (λ b. b.size ≡ c.class_size) c.head

module _ (w : Block → ℕ) (size : ℕ) where
  pub held-pop_size_class :
      (cs : List SizeClass) (r : Block × List SizeClass)
      → pop_size_class size cs ≡ some r
      → held w cs ≡ w r.0 + held w r.1
  unfolding pop_size_class
  held-pop_size_class [] r e = cc
  held-pop_size_class (c ∷ cs) r e = elim (Option-cases (pop_size_class size cs)) [
    | inl n ↦ ground arith
    | inr (q, s) ↦ ground (arith, held-pop_size_class cs q)
  ]

  held-append_new : (cs : List SizeClass) → held w (cs ++ new_class size ∷ []) ≡ held w cs
  held-append_new [] = refl
  held-append_new (c ∷ cs) = ground (arith, held-append_new cs)

module _ (w : Block → ℕ) (b : Block) (nodes : ℕ) where
  -- A push that takes place takes one node and adds the block; else nothing changes.
  abbrev pub Pushed : ℕ → Push → Type 0
  Pushed before r =
      (held w r.classes ≡ (if r.pushed then w b else 0) + before)
      × (nodes ≡ (if r.pushed then 1 else 0) + r.nodes)

  held-push_into :
      (c : SizeClass) (cs : List SizeClass)
      → Pushed (weigh w c.head + held w cs) (push_into b nodes c cs)
  unfolding push_into
  held-push_into c cs = ground arith

  held-push_at : (cs : List SizeClass) → Pushed (held w cs) (push_at b nodes cs)
  unfolding push_at
  held-push_at [] = ground arith
  held-push_at (c ∷ cs) = ground (arith, held-push_at cs, held-push_into c cs)

  pub held-push_size_class : (cs : List SizeClass) → Pushed (held w cs) (push_size_class b nodes cs)
  unfolding push_size_class
  held-push_size_class cs = ground (
    arith,
    held-push_at cs,
    held-push_at (cs ++ new_class b.size ∷ []),
    held-append_new w b.size cs,
  )

module _ (base top gran : ℕ) where
  abbrev pub IsTable : List SizeClass → Type 0
  IsTable cs = All (IsClass base top gran) cs

  IsClass-popped :
      (c : SizeClass) (b : Block) (bs : List Block)
      → c.head ≡ b ∷ bs
      → IsClass base top gran c
      → IsSlot base top gran b
        × (b.size ≡ c.class_size)
        × IsClass base top gran (record c { head = bs; count = c.count - 1 })
  IsClass-popped c b bs e h =
      let slots : All (IsSlot base top gran) (b ∷ bs) =
        subst (All (IsSlot base top gran)) e h.slots in
      let sized : All (λ x. x.size ≡ c.class_size) (b ∷ bs) =
        subst (All (λ x. x.size ≡ c.class_size)) e h.sized in
      let counted : length (b ∷ bs) ≡ c.count = subst (λ l. length l ≡ c.count) e h.counted in
      (
        slots.0,
        sized.0,
        record {
          counted = omega arith;
          capped = omega (arith, h.capped);
          slots = slots.1;
          sized = sized.1;
        },
      )

  abbrev PopKeeps : ℕ → Option (Block × List SizeClass) → Type 0
  PopKeeps size none = Unit
  PopKeeps size (some r) = IsSlot base top gran r.0 × (r.0.size ≡ size) × IsTable r.1

  pop-PopKeeps :
      (size : ℕ) (cs : List SizeClass) → IsTable cs → PopKeeps size (pop_size_class size cs)
  unfolding pop_size_class
  pop-PopKeeps size [] t = tt
  pop-PopKeeps size (c ∷ cs) t =
      split c.head refl (pop_size_class size cs) (pop-PopKeeps size cs t.1)
    where
      missed :
          (o : Option (Block × List SizeClass))
          → PopKeeps size o
          → PopKeeps size (Option.map (keep c) o)
      missed none k = tt
      missed (some r) k = (k.0, k.1, (t.0, k.2))

      split :
          (h : List Block)
          → c.head ≡ h
          → (o : Option (Block × List SizeClass)) → PopKeeps size o
          → PopKeeps size (elim h [
            | [] ↦ Option.map (keep c) o
            | b ∷ bs ↦
                if c.class_size == size
                then some (b, record c { head = bs; count = c.count - 1 } ∷ cs)
                else Option.map (keep c) o
          ])
      split [] e o k = missed o k
      split (b ∷ bs) e o k = elim (Bool-cases (c.class_size == size)) [
        | inl same ↦
            let (slot, sized, class) = IsClass-popped c b bs e t.0 in
            rw same (slot, sized ∙ (==_iff _ _).0 same, (class, t.1))
        | inr other ↦ rw other (missed o k)
      ]

  -- A cached block that is handed out is a slot of exactly the class size.
  pub table-pop_size_class :
      (size : ℕ) (cs : List SizeClass) (r : Block × List SizeClass)
      → pop_size_class size cs ≡ some r
      → IsTable cs
      → IsSlot base top gran r.0 × (r.0.size ≡ size) × IsTable r.1
  table-pop_size_class size cs r e t = subst (PopKeeps size) e (pop-PopKeeps size cs t)

  table-push_into :
      (b : Block) (nodes : ℕ) (c : SizeClass) (cs : List SizeClass)
      → IsSlot base top gran b
      → b.size ≡ c.class_size
      → IsTable (c ∷ cs)
      → IsTable (push_into b nodes c cs).classes
  unfolding push_into
  table-push_into b nodes c cs h e t = elim (Bool-cases (leb max_cached_per_class c.count)) [
    | inl full ↦ rw full t
    | inr room ↦ rw room (push (leb_false→lt _ _ room) nodes)
  ]
    where
      push :
          c.count < max_cached_per_class
          → (n : ℕ)
          → IsTable (
              Push.classes (elim n [
                | zero ↦ record { pushed = false; nodes = 0; classes = c ∷ cs }
                | suc k ↦ record {
                  pushed = true;
                  nodes = k;
                  classes = record c { head = b ∷ c.head; count = c.count + 1 } ∷ cs;
                }
              ]))
      push room zero = t
      push room (suc k) = (
        record {
          counted = omega (arith, t.0.counted);
          capped = omega arith;
          slots = (h, t.0.slots);
          sized = (e, t.0.sized);
        },
        t.1,
      )

  IsClass-new : (size : ℕ) → IsClass base top gran (new_class size)
  IsClass-new size = record { counted = refl; capped = omega arith; slots = tt; sized = tt }

  table_append : (size : ℕ) (cs : List SizeClass) → IsTable cs → IsTable (cs ++ new_class size ∷ [])
  table_append size [] t = (IsClass-new size, tt)
  table_append size (c ∷ cs) t = (t.0, table_append size cs t.1)

  table-push_at :
      (b : Block) (nodes : ℕ) (cs : List SizeClass)
      → IsSlot base top gran b
      → IsTable cs
      → IsTable (push_at b nodes cs).classes
  unfolding push_at
  table-push_at b nodes [] h t = tt
  table-push_at b nodes (c ∷ cs) h t = elim (Bool-cases (c.class_size == b.size)) [
    | inl same ↦ rw same (table-push_into b nodes c cs h (sym ((==_iff _ _).0 same)) t)
    | inr other ↦ rw other (t.0, table-push_at b nodes cs h t.1)
  ]

  -- A push keeps every class counted, capped and of one size.
  pub table-push_size_class :
      (b : Block) (nodes : ℕ) (cs : List SizeClass)
      → IsSlot base top gran b
      → IsTable cs
      → IsTable (push_size_class b nodes cs).classes
  unfolding push_size_class
  table-push_size_class b nodes cs h t = elim (Bool-cases (has_class b.size cs)) [
    | inl known ↦ rw known (table-push_at b nodes cs h t)
    | inr fresh ↦ elim (Bool-cases (leb max_size_classes (length cs))) [
      | inl full ↦ rw (fresh, full) t
      | inr room ↦ rw (fresh, room) (table-push_at b nodes _ h (table_append b.size cs t))
    ]
  ]

  pub table-emptied : (cs : List SizeClass) → IsTable cs → IsTable (emptied cs)
  unfolding emptied
  table-emptied [] t = tt
  table-emptied (c ∷ cs) t = (
    record { counted = refl; capped = omega arith; slots = tt; sized = tt },
    table-emptied cs t.1,
  )

pub held-emptied : (w : Block → ℕ) (cs : List SizeClass) → held w (emptied cs) ≡ 0
unfolding emptied
held-emptied w [] = refl
held-emptied w (c ∷ cs) = omega (arith, held-emptied w cs)

-- The table never outgrows its 256 entries, and a push removes no class.
length-push_at :
    (b : Block) (nodes : ℕ) (cs : List SizeClass) → length (push_at b nodes cs).classes ≡ length cs
unfolding push_at push_into
length-push_at b nodes [] = refl
length-push_at b nodes (c ∷ cs) = ground (arith, length-push_at b nodes cs)

pub length-push_size_class :
    (b : Block) (nodes : ℕ) (cs : List SizeClass)
    → length cs ≤ max_size_classes
    → length (push_size_class b nodes cs).classes ≤ max_size_classes
unfolding push_size_class
length-push_size_class b nodes cs h = ground (
  arith,
  length-push_at b nodes cs,
  length-push_at b nodes (cs ++ new_class b.size ∷ []),
  length-append cs (new_class b.size ∷ []),
)

pub length-pop_size_class :
    (size : ℕ) (cs : List SizeClass) (r : Block × List SizeClass)
    → pop_size_class size cs ≡ some r
    → length r.1 ≡ length cs
unfolding pop_size_class
length-pop_size_class size [] r e = cc
length-pop_size_class size (c ∷ cs) r e = elim (Option-cases (pop_size_class size cs)) [
  | inl n ↦ ground arith
  | inr (q, s) ↦ ground (arith, length-pop_size_class size cs q)
]

pub length-emptied : (cs : List SizeClass) → length (emptied cs) ≡ length cs
unfolding emptied
length-emptied [] = refl
length-emptied (c ∷ cs) = ap suc (length-emptied cs)
