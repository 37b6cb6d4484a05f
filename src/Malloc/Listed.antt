-- ===== src/Malloc/Listed.antt =====
-- Which elements stand in the free lists after an insertion and a removal.
use rte_demo.Prelude.{
  ℕ, zero, suc, ◌<◌, ◌≡◌, ◌≢◌, refl, ap, ◌∙◌, ◌⊎◌, inl, inr, ◌↔◌, arith, List, [], ◌∷◌, length,
  get_or, ◌==◌, ==_iff, true, false, Bool-cases,
}
use rte_demo.Word.{sub64}
use rte_demo.Malloc.Types.{Memory, header_len}
use rte_demo.Malloc.FreeList.{
  push_at, remove, remove_all, free_list_index, free_list_insert, free_list_remove,
}

abbrev pub Occurs : ℕ → List ℕ → Type 0
Occurs a [] = ⊥
Occurs a (b ∷ bs) = (a ≡ b) ⊎ Occurs a bs

-- The free list of a heap with an index.
abbrev pub list_of : Memory → (heap i : ℕ) → List ℕ
list_of m heap i = get_or (m.heap_at heap).free_head i []

Occurs-remove : (a b : ℕ) (l : List ℕ) → Occurs a (remove b l) ↔ (Occurs a l × (a ≢ b))
Occurs-remove a b [] = (λ h. absurd h, λ (h, k). h)
Occurs-remove a b (x ∷ l) = elim (Bool-cases (x == b)) [
  | inl e ↦ rw e (
    λ h. let (p, ne) = (Occurs-remove a b l).0 h in (inr p, ne),
    λ (h, ne). (Occurs-remove a b l).1 (behind e ne h, ne),
  )
  | inr e ↦ rw e (λ h. forth (Occurs-remove a b l) e h, λ (h, ne). back (Occurs-remove a b l) ne h)
]
  where
    behind : (x == b) ≡ true → a ≢ b → (a ≡ x) ⊎ Occurs a l → Occurs a l
    behind e ne (inl p) = absurd (ne (p ∙ (==_iff x b).0 e))
    behind e ne (inr p) = p

    forth :
        (Occurs a (remove b l) ↔ (Occurs a l × (a ≢ b)))
        → (x == b) ≡ false
        → (a ≡ x) ⊎ Occurs a (remove b l)
        → ((a ≡ x) ⊎ Occurs a l) × (a ≢ b)
    forth rest e (inl p) = (inl p, λ q. absurd (ground (arith, e, p, q)))
    forth rest e (inr p) = let (q, ne) = rest.0 p in (inr q, ne)

    back :
        (Occurs a (remove b l) ↔ (Occurs a l × (a ≢ b)))
        → a ≢ b
        → (a ≡ x) ⊎ Occurs a l
        → (a ≡ x) ⊎ Occurs a (remove b l)
    back rest ne (inl p) = inl p
    back rest ne (inr p) = inr (rest.1 (p, ne))

get_or-remove_all :
    (b : ℕ) (ls : List (List ℕ)) (i : ℕ) → get_or (remove_all b ls) i [] ≡ remove b (get_or ls i [])
get_or-remove_all b [] i = refl
get_or-remove_all b (l ∷ ls) zero = refl
get_or-remove_all b (l ∷ ls) (suc i) = get_or-remove_all b ls i

get_or-push_self :
    (a i : ℕ) (ls : List (List ℕ))
    → i < length ls
    → get_or (push_at i a ls) i [] ≡ a ∷ get_or ls i []
get_or-push_self a i [] h = absurd (omega (arith, h))
get_or-push_self a zero (l ∷ ls) h = refl
get_or-push_self a (suc i) (l ∷ ls) h = get_or-push_self a i ls (omega (arith, h))

-- An element that is pushed is new in one list; all others are where they were.
Occurs-push :
    (a b i j : ℕ) (ls : List (List ℕ))
    → b ≢ a
    → Occurs b (get_or (push_at i a ls) j []) ↔ Occurs b (get_or ls j [])
Occurs-push a b i j [] ne = (λ h. h, λ h. h)
Occurs-push a b zero zero (l ∷ ls) ne = (λ h. old h, λ h. inr h)
  where
    old : (b ≡ a) ⊎ Occurs b l → Occurs b l
    old (inl p) = absurd (ne p)
    old (inr p) = p
Occurs-push a b zero (suc j) (l ∷ ls) ne = (λ h. h, λ h. h)
Occurs-push a b (suc i) zero (l ∷ ls) ne = (λ h. h, λ h. h)
Occurs-push a b (suc i) (suc j) (l ∷ ls) ne = Occurs-push a b i j ls ne

length-remove_all : (b : ℕ) (ls : List (List ℕ)) → length (remove_all b ls) ≡ length ls
length-remove_all b [] = refl
length-remove_all b (l ∷ ls) = ap suc (length-remove_all b ls)

module _ (m : Memory) (p : ℕ) where
  removed_lists :
      (free_list_remove m p).heap_at (m.elem_at p).heap ≡ record (m.heap_at (m.elem_at p).heap) {
        free_head = remove_all p (m.heap_at (m.elem_at p).heap).free_head;
      }
  unfolding free_list_remove
  removed_lists = rw ((==_iff (m.elem_at p).heap (m.elem_at p).heap).1 refl) refl

  pub removed-Occurs :
      (a i : ℕ)
      → Occurs a (list_of (free_list_remove m p) (m.elem_at p).heap i)
        ↔ (Occurs a (list_of m (m.elem_at p).heap i) × (a ≢ p))
  removed-Occurs a i =
      rw (removed_lists, get_or-remove_all p (m.heap_at (m.elem_at p).heap).free_head i)
        (Occurs-remove a p (list_of m (m.elem_at p).heap i))

  pub removed_count :
      length ((free_list_remove m p).heap_at (m.elem_at p).heap).free_head
      ≡ length (m.heap_at (m.elem_at p).heap).free_head
  removed_count = rw removed_lists (length-remove_all p (m.heap_at (m.elem_at p).heap).free_head)

  abbrev index : ℕ
  index = free_list_index (sub64 (m.elem_at p).size header_len)

  inserted_lists :
      (free_list_insert m p).heap_at (m.elem_at p).heap ≡ record (m.heap_at (m.elem_at p).heap) {
        free_head = push_at index p (m.heap_at (m.elem_at p).heap).free_head;
      }
  unfolding free_list_insert
  inserted_lists = rw ((==_iff (m.elem_at p).heap (m.elem_at p).heap).1 refl) refl

  pub inserted-Occurs :
      (a i : ℕ)
      → a ≢ p
      → Occurs a (list_of (free_list_insert m p) (m.elem_at p).heap i)
        ↔ Occurs a (list_of m (m.elem_at p).heap i)
  inserted-Occurs a i ne =
      rw inserted_lists (Occurs-push p a index i (m.heap_at (m.elem_at p).heap).free_head ne)

  pub inserted_self :
      index < length (m.heap_at (m.elem_at p).heap).free_head
      → Occurs p (list_of (free_list_insert m p) (m.elem_at p).heap index)
  inserted_self h =
      rw (inserted_lists, get_or-push_self p index (m.heap_at (m.elem_at p).heap).free_head h)
        (inl refl)
