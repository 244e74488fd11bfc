-- ===== src/Util/StrMap/Probing.antt =====
-- src/util/strmap.c: `strmap_find_slot`, which walks the slots from the one that the hash names.
use multi_agent.Common.{
  ℕ, zero, suc, ◌+◌, ◌-◌, ◌%◌, ◌≤◌, ◌<◌, ◌≡◌, ◌≢◌, refl, sym, ap, ◌∙◌, Bool, true, false, Option,
  none, some, List, Bytes, str_eq, str_eq_iff, length, get_elem?, if◌then◌else◌, arith, inl, inr,
  Bool-cases, subst, ◌==◌, ==_refl, ==_iff, ap₂, &&-true, pow2, pow2-pos, bit_and-mask, ◌&&◌,
}
use Prim.Native.Nat.{bit_and}
use native.Mathlib.Nat.{mod-add-mod, mod-lt}
use native.Mathlib.Decide.{dec_lt}
use mathlib.Core.Option.{some-injective}
use multi_agent.Util.StrMap.{
  Slot, vacant, removed, used, Place, at, free, endless, probe, next_index, first_of_two, hash,
}
use multi_agent.Util.StrMap.Slots.{HasKey, get_elem?-in}

module _ {V : Type 0} where
  -- The slot that a walk from hash h looks at after i steps.
  abbrev pub nth_slot : List (Slot V) → ℕ → ℕ → Option (Slot V)
  nth_slot es h i = get_elem? es ((h + i) % length es)

  -- A walk from hash h comes to index p with no vacant slot before it.
  abbrev pub Reaches : List (Slot V) → ℕ → ℕ → Type 0
  Reaches es h p =
      (d : ℕ) × (p ≡ (h + d) % length es) × ((i : ℕ) → i < d → nth_slot es h i ≢ some vacant)

  -- A walk from hash h comes to a vacant slot, and to no slot with the key.
  abbrev pub Absent : List (Slot V) → Bytes → ℕ → Type 0
  Absent es key h =
      (e : ℕ) × (nth_slot es h e ≡ some vacant)
      × ((i : ℕ) → i < e → HasKey es ((h + i) % length es) key → ⊥)

  -- Each key is stored with its hash, and where a walk from that hash finds it.
  abbrev pub IsHashed : List (Slot V) → Type 0
  IsHashed es =
      (p : ℕ) (k : Bytes) (h : ℕ) (v : V)
      → get_elem? es p ≡ some (used k h v)
      → (h ≡ hash k) × Reaches es h p

  -- A slot that a key may be written to.
  abbrev pub IsFree : Slot V → Type 0
  IsFree (used k h v) = ⊥
  IsFree _ = Unit {0}

  -- What a search promises.
  abbrev pub Placed : List (Slot V) → Bytes → ℕ → Place → Type 0
  Placed es key h endless = ⊥
  Placed es key h (at p) = (v : V) × (get_elem? es p ≡ some (used key h v))
  Placed es key h (free p) =
      (old : Slot V) × (get_elem? es p ≡ some old) × IsFree old × Reaches es h p × Absent es key h

  -- The slots that a walk has left behind.
  abbrev Visited : List (Slot V) → Bytes → ℕ → ℕ → Type 0
  Visited es key h i =
      (j : ℕ) → j < i → (nth_slot es h j ≢ some vacant) × (HasKey es ((h + j) % length es) key → ⊥)

  abbrev FirstOk : List (Slot V) → ℕ → ℕ → Option ℕ → Type 0
  FirstOk es h i none = Unit {0}
  FirstOk es h i (some p) =
      (get_elem? es p ≡ some removed) × (d : ℕ) × (d ≤ i) × (p ≡ (h + d) % length es)

  Visited-suc :
      (es : List (Slot V)) (key : Bytes) (h i : ℕ)
      → Visited es key h i
      → nth_slot es h i ≢ some vacant
      → (HasKey es ((h + i) % length es) key → ⊥)
      → Visited es key h (suc i)
  Visited-suc es key h i seen ne other j lt = elim (dec_lt j i) [
    | yes less ↦ seen j less
    | no ge ↦
        let same : i ≡ j = omega arith in
        subst (λ x. (nth_slot es h x ≢ some vacant) × (HasKey es ((h + x) % length es) key → ⊥))
          same (ne, other)
  ]

  step_lem :
      (es : List (Slot V)) (k h i : ℕ)
      → length es ≡ pow2 k
      → next_index (length es) ((h + i) % length es) ≡ (h + suc i) % length es
  step_lem es k h i size =
      ap (λ c. bit_and ((h + i) % length es + 1) (c - 1)) size
      ∙ bit_and-mask ((h + i) % length es + 1) k
      ∙ ap (λ c. ((h + i) % length es + 1) % c) (sym size)
      ∙ mod-add-mod (h + i) (length es) 1
      ∙ ap (λ x. x % length es) (omega arith)

  Reaches-Visited :
      (es : List (Slot V)) (key : Bytes) (h i d p : ℕ)
      → Visited es key h i
      → d ≤ i
      → p ≡ (h + d) % length es
      → Reaches es h p
  Reaches-Visited es key h i d p seen le e = (d, e, λ j lt. (seen j (omega arith)).0)

  free_lem :
      (es : List (Slot V)) (key : Bytes) (h i : ℕ) (first : Option ℕ)
      → nth_slot es h i ≡ some vacant
      → Visited es key h i
      → FirstOk es h i first
      → Placed es key h (free (first_of_two first ((h + i) % length es)))
  free_lem es key h i none e seen ok = (
    vacant,
    e,
    tt,
    Reaches-Visited es key h i i _ seen (omega arith) refl,
    (i, e, λ j lt. (seen j lt).1),
  )
  free_lem es key h i (some p) e seen (is_rem, d, le, at_d) = (
    removed,
    is_rem,
    tt,
    Reaches-Visited es key h i d p seen le at_d,
    (i, e, λ j lt. (seen j lt).1),
  )

  -- Before the vacant slot the walk goes on.
  not_yet :
      (es : List (Slot V)) (h i e : ℕ)
      → nth_slot es h e ≡ some vacant
      → i ≤ e
      → nth_slot es h i ≢ some vacant
      → i < e
  not_yet es h i e at_e le ne = elim (dec_lt i e) [
    | yes lt ↦ lt
    | no ge ↦ let same : e ≡ i = omega arith in absurd (ne (ap (nth_slot es h) (sym same) ∙ at_e))
  ]

  -- A slot that fails the test has another key.
  other_key :
      (es : List (Slot V)) (key k : Bytes) (p hk : ℕ) (v : V)
      → IsHashed es
      → get_elem? es p ≡ some (used k hk v)
      → ((hk == hash key) && str_eq k key) ≡ false
      → HasKey es p key
      → ⊥
  other_key es key k p hk v hashed e fails (h, w, e') =
      let slots : used k hk v ≡ used key h w = some-injective _ _ (sym e ∙ e') in
      let keys : k ≡ key = cc in
      let hks : hk ≡ hash key = (hashed p k hk v e).0 ∙ ap hash keys in
      let both : ((hk == hash key) && str_eq k key) ≡ true =
        rw (hks, ==_refl (hash key), (str_eq_iff k key).1 keys) refl in
      absurd cc

  -- One step of the search, by the state of the slot.
  probe_vacant :
      (fuel : ℕ) (es : List (Slot V)) (key : Bytes) (h idx : ℕ) (first : Option ℕ)
      → get_elem? es idx ≡ some vacant
      → probe (suc fuel) es key h idx first ≡ free (first_of_two first idx)
  unfolding probe
  probe_vacant fuel es key h idx first e = rw (probe, e) refl

  probe_removed :
      (fuel : ℕ) (es : List (Slot V)) (key : Bytes) (h idx : ℕ) (first : Option ℕ)
      → get_elem? es idx ≡ some removed
      → probe (suc fuel) es key h idx first
        ≡ probe fuel es key h (next_index (length es) idx) (some (first_of_two first idx))
  unfolding probe
  probe_removed fuel es key h idx first e = rw (probe, e) refl

  probe_used :
      (fuel : ℕ) (es : List (Slot V)) (key : Bytes) (h idx : ℕ) (first : Option ℕ) (k : Bytes)
      (hk : ℕ) (v : V) (test : Bool)
      → get_elem? es idx ≡ some (used k hk v)
      → ((hk == h) && str_eq k key) ≡ test
      → probe (suc fuel) es key h idx first
        ≡ (if test then at idx else probe fuel es key h (next_index (length es) idx) first)
  unfolding probe
  probe_used fuel es key h idx first k hk v true e t = rw (probe, e, t) refl
  probe_used fuel es key h idx first k hk v false e t = rw (probe, e, t) refl

  found_lem :
      (es : List (Slot V)) (p : ℕ) (key k : Bytes) (h hk : ℕ) (v : V)
      → get_elem? es p ≡ some (used k hk v)
      → ((hk == h) && str_eq k key) ≡ true
      → Placed es key h (at p)
  found_lem es p key k h hk v e same =
      let (a, b) = &&-true (hk == h) (str_eq k key) same in
      (v, e ∙ ap₂ (λ x y. some (used x y v)) ((str_eq_iff k key).0 b) ((==_iff hk h).0 a))

  pub probe-Placed :
      (es : List (Slot V)) (k : ℕ) (key : Bytes) (fuel i e : ℕ) (first : Option ℕ)
      → length es ≡ pow2 k
      → IsHashed es
      → nth_slot es (hash key) e ≡ some vacant
      → i ≤ e
      → e < i + fuel
      → Visited es key (hash key) i
      → FirstOk es (hash key) i first
      → Placed es key (hash key) (probe fuel es key (hash key) ((hash key + i) % length es) first)
  unfolding probe
  probe-Placed es k key zero i e first size hashed at_e le lt seen ok = absurd (omega arith)
  probe-Placed es k key (suc fuel) i e first size hashed at_e le lt seen ok =
      let (s, at_i) =
        get_elem?-in es ((hash key + i) % length es)
          (mod-lt (hash key + i) (omega (arith, pow2-pos k))) in
      by_slot
        (λ first' less seen' ok'.
          probe-Placed es k key fuel (suc i) e first' size hashed at_e (omega arith) (omega arith)
            seen' ok')
        s at_i
    where
      h : ℕ
      h = hash key

      Later : Option ℕ → Type 0
      Later first' =
          i < e
          → Visited es key h (suc i)
          → FirstOk es h (suc i) first'
          → Placed es key h (probe fuel es key h ((h + suc i) % length es) first')

      go_on :
          (first' : Option ℕ)
          → Later first'
          → nth_slot es h i ≢ some vacant
          → (HasKey es ((h + i) % length es) key → ⊥)
          → FirstOk es h (suc i) first'
          → Placed es key h
              (probe fuel es key h (next_index (length es) ((h + i) % length es)) first')
      go_on first' later ne other ok' =
          rw (step_lem es k h i size)
            (later (not_yet es h i e at_e le ne) (Visited-suc es key h i seen ne other) ok')

      first_now :
          (first : Option ℕ)
          → nth_slot es h i ≡ some removed
          → FirstOk es h i first
          → FirstOk es h (suc i) (some (first_of_two first ((h + i) % length es)))
      first_now none e o = (e, i, omega arith, refl)
      first_now (some p) e (r, d, le, at_d) = (r, d, omega arith, at_d)

      first_later : (first : Option ℕ) → FirstOk es h i first → FirstOk es h (suc i) first
      first_later none o = tt
      first_later (some p) (r, d, le, at_d) = (r, d, omega arith, at_d)

      by_slot :
          ((first' : Option ℕ) → Later first')
          → (s : Slot V) → nth_slot es h i ≡ some s
          → Placed es key h (probe (suc fuel) es key h ((h + i) % length es) first)
      by_slot later vacant at_i =
          subst (Placed es key h) (sym (probe_vacant fuel es key h _ first at_i))
            (free_lem es key h i first at_i seen ok)
      by_slot later removed at_i =
          subst (Placed es key h) (sym (probe_removed fuel es key h _ first at_i)) (
            go_on (some (first_of_two first ((h + i) % length es))) (later _) (λ z. cc)
              (λ (hk, v, z). cc) (first_now first at_i ok))
      by_slot later (used k hk v) at_i = elim (Bool-cases ((hk == h) && str_eq k key)) [
        | inl same ↦
            subst (Placed es key h) (sym (probe_used fuel es key h _ first k hk v true at_i same))
              (found_lem es _ key k h hk v at_i same)
        | inr other ↦
            subst (Placed es key h) (sym (probe_used fuel es key h _ first k hk v false at_i other))
              (go_on first (later _) (λ z. cc) (other_key es key k _ hk v hashed at_i other)
                (first_later first ok))
      ]
