-- ===== src/Tailq/Registered.antt =====
-- A queue that is registered can be looked up.
use rte_demo.Prelude.{
  take_all, same_name, same_name_refl, ℕ, zero, suc, ◌+◌, ◌-◌, ◌≤◌, ◌<◌, ◌≡◌, refl, sym, ap, ◌∙◌,
  ◌⊎◌, inl, inr, arith, List, [], ◌∷◌, ◌++◌, length, take, set, Option, none, some, Bool-cases,
  Option-cases, true, false, ltb,
}
use rte_demo.Tailq.{
  max_tailq, tailq_namesize, TailqElem, Tailqs, find_head, tailq_lookup, tailq_create, has_name,
  tailq_update, tailq_register,
}

found_one : Option ℕ → ℕ
found_one none = 0
found_one (some i) = 1

-- A name that no entry has is found where it is written.
find_head-set :
    (heads : List (List ℕ)) (i c : ℕ) (name : List ℕ)
    → length name ≤ tailq_namesize - 2
    → c < length heads
    → find_head heads i name ≡ none
    → find_head (set heads c name) i name ≡ some (i + c)
unfolding find_head
find_head-set [] i c name small h e = elim h [ ]
find_head-set (x ∷ heads) i zero name small h e =
    rw (same_name_refl (take 31 name)) (ap some (omega arith))
find_head-set (x ∷ heads) i (suc c) name small h e =
    elim (Bool-cases (same_name (take 31 name) (take 31 x))) [
      | inl hit ↦ absurd (ground (arith, ap found_one (sym (found hit) ∙ e)))
      | inr differs ↦ rw differs (
          find_head-set heads (i + 1) c name small (omega arith) (sym (passed differs) ∙ e)
          ∙ ap some (omega arith))
    ]
  where
    found : same_name (take 31 name) (take 31 x) ≡ true → find_head (x ∷ heads) i name ≡ some i
    found hit = rw hit refl

    passed :
        same_name (take 31 name) (take 31 x) ≡ false
        → find_head (x ∷ heads) i name ≡ find_head heads (i + 1) name
    passed differs = rw differs refl

module _ (s : Tailqs) (t : TailqElem) (count : ℕ) (up : s.tailqs_count ≡ some count)
    (full : length s.tailq_head ≡ max_tailq) (small : length t.name ≤ tailq_namesize - 2) where
  -- The element and the state after a registration that succeeds.
  abbrev elem_up : TailqElem
  elem_up = record t { head = some count }

  abbrev created : Tailqs
  created = record s {
    tailq_head = set s.tailq_head count (take (tailq_namesize - 2) t.name);
    tailqs_count = some (count + 1);
    elems = s.elems ++ (elem_up ∷ []);
  }

  lookup_created :
      tailq_lookup s t.name ≡ none → count < max_tailq → tailq_lookup created t.name ≡ some count
  unfolding tailq_lookup
  lookup_created missing room = rw (take_all (tailq_namesize - 2) t.name small) (
      find_head-set s.tailq_head 0 count t.name small (omega (arith, full)) missing
      ∙ ap some from_zero)
    where
      from_zero : 0 + count ≡ count
      from_zero = omega arith

  -- In the primary process and after the start, the registration of a queue whose name is short
  -- enough ends in one of two ways: it succeeds, the next entry of the table is its head, and the
  -- lookup of the name gives that entry; or it fails, because the name is there or the table is
  -- full, and leaves everything as it was.
  pub tailq_register_lem :
      ((tailq_register true s t ≡ (true, record t { head = some count }, created))
        × (has_name s.elems t.name ≡ false)
        × (tailq_lookup s t.name ≡ none)
        × (tailq_lookup created t.name ≡ some count))
      ⊎ ((tailq_register true s t ≡ (false, record t { head = none }, s))
          × ((has_name s.elems t.name ≡ true)
              ⊎ ((i : ℕ) × (tailq_lookup s t.name ≡ some i))
              ⊎ (max_tailq ≤ count + 1)))
  unfolding tailq_register tailq_update tailq_create tailq_lookup
  tailq_register_lem = elim (Bool-cases (has_name s.elems t.name)) [
    | inl there ↦ inr (rw there refl, inl there)
    | inr new ↦ elim (Option-cases (tailq_lookup s t.name)) [
      | inr (i, found) ↦ inr (rw (new, up, found) refl, inr (inl (i, found)))
      | inl missing ↦ elim (Bool-cases (ltb (count + 1) max_tailq)) [
        | inr e ↦ inr (rw (new, up, missing, e) refl, inr (inr (ground arith)))
        | inl e ↦
            inl (rw (new, up, missing, e) refl, new, missing, lookup_created missing (ground arith))
      ]
    ]
  ]
