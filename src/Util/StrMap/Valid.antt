-- ===== src/Util/StrMap/Valid.antt =====
-- src/util/strmap.c: what a valid map is, and that a slot may be written with a key, or as removed.
use multi_agent.Common.{
  same_or_not, ℕ, ◌+◌, ◌%◌, ◌<◌, ◌≡◌, ◌≢◌, sym, ap, ◌∙◌, some, List, Bytes, length, get_elem?,
  get_elem?-set_self, get_elem?-set_ne, get_elem?-lt, length-set, set, ◌⊎◌, inl, inr, subst, pow2,
}
use mathlib.Core.Option.{some-injective}
use multi_agent.Util.StrMap.{Slot, vacant, removed, used, Map, hash}
use multi_agent.Util.StrMap.Slots.{HasKey, total, one_if_used, one_if_removed}
use multi_agent.Util.StrMap.Probing.{Reaches, IsHashed}

-- No key stands twice.
abbrev pub IsUnique : {V : Type 0} → List (Slot V) → Type 0
IsUnique es = (p q : ℕ) (key : Bytes) → HasKey es p key → HasKey es q key → p ≡ q

-- A map that the operations leave behind: its capacity is a power of two, its counts are right, a
-- slot is vacant, each key is where a search finds it, and no key stands twice.
pub record IsValid {V : Type 0} (m : Map V) : Type 0 where
  pub power : (k : ℕ) × (length m.entries ≡ pow2 k)
  pub counted : m.count ≡ total one_if_used m.entries
  pub counted_removed : m.deleted ≡ total one_if_removed m.entries
  pub room : m.count + m.deleted < length m.entries
  pub hashed : IsHashed m.entries
  pub unique : IsUnique m.entries

module _ {V : Type 0} where
  -- A write of a slot that is not vacant leaves no new vacant slot.
  stays_taken :
      (es : List (Slot V)) (p q : ℕ) (new : Slot V)
      → new ≢ vacant
      → get_elem? es q ≢ some vacant
      → get_elem? (set es p new) q ≢ some vacant
  stays_taken es p q new taken ne e = elim (same_or_not p q) [
    | inr other ↦ ne (sym (get_elem?-set_ne es p q new other) ∙ e)
    | inl same ↦
        let lt : q < length es =
          subst (λ c. q < c) (length-set es p new) (get_elem?-lt (set es p new) q e) in
        taken (
          some-injective _ _ (
            sym (get_elem?-set_self es q new lt)
            ∙ ap (λ x. get_elem? (set es x new) q) (sym same)
            ∙ e))
  ]

  pub Reaches-set :
      (es : List (Slot V)) (p h q : ℕ) (new : Slot V)
      → new ≢ vacant
      → Reaches es h q
      → Reaches (set es p new) h q
  Reaches-set es p h q new taken (d, at_d, passed) = (
    d,
    at_d ∙ ap (λ c. (h + d) % c) (sym (length-set es p new)),
    λ i lt e.
        stays_taken es p ((h + i) % length es) new taken (passed i lt)
          (ap (λ c. get_elem? (set es p new) ((h + i) % c)) (sym (length-set es p new)) ∙ e),
  )

  -- What a slot holds after a write: the new contents, or what it held.
  after_set :
      (es : List (Slot V)) (p q : ℕ) (new s : Slot V)
      → get_elem? (set es p new) q ≡ some s
      → ((p ≡ q) × (new ≡ s)) ⊎ ((p ≢ q) × (get_elem? es q ≡ some s))
  after_set es p q new s e = elim (same_or_not p q) [
    | inr other ↦ inr (other, sym (get_elem?-set_ne es p q new other) ∙ e)
    | inl same ↦
        let lt : q < length es =
          subst (λ c. q < c) (length-set es p new) (get_elem?-lt (set es p new) q e) in
        inl (
          same,
          some-injective _ _ (
              sym (get_elem?-set_self es q new lt)
              ∙ ap (λ x. get_elem? (set es x new) q) (sym same)
              ∙ e),
        )
  ]

  pub IsHashed-set_used :
      (es : List (Slot V)) (p : ℕ) (key : Bytes) (v : V)
      → IsHashed es
      → Reaches es (hash key) p
      → IsHashed (set es p (used key (hash key) v))
  IsHashed-set_used es p key v hashed reach q k h w e =
      elim (after_set es p q (used key (hash key) v) (used k h w) e) [
        | inr (other, e') ↦
            let (same, r) = hashed q k h w e' in (same, Reaches-set es p h q _ (λ z. cc) r)
        | inl (pq, slots) ↦
            let keys : key ≡ k = cc in
            let hs : hash key ≡ h = cc in
            (
              sym hs ∙ ap hash keys,
              subst (λ x. Reaches (set es p (used key (hash key) v)) x q) hs
                  (subst (Reaches (set es p (used key (hash key) v)) (hash key)) pq
                    (Reaches-set es p (hash key) p _ (λ z. cc) reach)),
            )
      ]

  pub IsHashed-set_removed :
      (es : List (Slot V)) (p : ℕ) → IsHashed es → IsHashed (set es p removed)
  IsHashed-set_removed es p hashed q k h w e = elim (after_set es p q removed (used k h w) e) [
    | inr (other, e') ↦
        let (same, r) = hashed q k h w e' in (same, Reaches-set es p h q _ (λ z. cc) r)
    | inl (pq, slots) ↦ cc
  ]

  -- A key of the slots that are left or of the slot that was written.
  HasKey-set :
      (es : List (Slot V)) (p q : ℕ) (key j : Bytes) (h : ℕ) (v : V)
      → HasKey (set es p (used key h v)) q j
      → ((p ≡ q) × (key ≡ j)) ⊎ ((p ≢ q) × HasKey es q j)
  HasKey-set es p q key j h v (h', w, e) = elim (after_set es p q (used key h v) (used j h' w) e) [
    | inl (pq, slots) ↦ inl (pq, cc)
    | inr (other, e') ↦ inr (other, (h', w, e'))
  ]

  pub IsUnique-set_used :
      (es : List (Slot V)) (p : ℕ) (key : Bytes) (h : ℕ) (v : V)
      → IsUnique es
      → ((q : ℕ) → q ≢ p → HasKey es q key → ⊥)
      → IsUnique (set es p (used key h v))
  IsUnique-set_used es p key h v unique only a b j has_a has_b =
      elim (HasKey-set es p a key j h v has_a) [
        | inl (pa, ka) ↦ elim (HasKey-set es p b key j h v has_b) [
          | inl (pb, kb) ↦ sym pa ∙ pb
          | inr (nb, hb) ↦ absurd (only b (λ z. nb (sym z)) (subst (HasKey es b) (sym ka) hb))
        ]
        | inr (na, ha) ↦ elim (HasKey-set es p b key j h v has_b) [
          | inl (pb, kb) ↦ absurd (only a (λ z. na (sym z)) (subst (HasKey es a) (sym kb) ha))
          | inr (nb, hb) ↦ unique a b j ha hb
        ]
      ]

  pub IsUnique-set_removed :
      (es : List (Slot V)) (p : ℕ) → IsUnique es → IsUnique (set es p removed)
  IsUnique-set_removed es p unique a b j (h, v, ea) (h', v', eb) =
      unique a b j (h, v, kept a h v ea) (h', v', kept b h' v' eb)
    where
      kept :
          (q h : ℕ) (v : V)
          → get_elem? (set es p removed) q ≡ some (used j h v)
          → get_elem? es q ≡ some (used j h v)
      kept q h v e = elim (after_set es p q removed (used j h v) e) [
        | inl (pq, slots) ↦ cc
        | inr (other, e') ↦ e'
      ]
