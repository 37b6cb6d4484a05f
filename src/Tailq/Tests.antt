-- ===== src/Tailq/Tests.antt =====
-- A registration in a table that holds one queue.
use rte_demo.Prelude.{
  ℕ, ◌+◌, ◌≤◌, ◌≡◌, refl, ◌⊎◌, arith, true, false, [], ◌∷◌, replicate, some, none,
}
use rte_demo.Tailq.{TailqElem, Tailqs, tailq_lookup, has_name, tailq_register, max_tailq}
use rte_demo.Tailq.Registered.{tailq_register_lem}

abbrev rings : TailqElem
rings = record { name = 82 ∷ 84 ∷ []; head = some 0 }

abbrev pools : TailqElem
pools = record { name = 77 ∷ 80 ∷ []; head = none }

abbrev queues : Tailqs
queues = record {
  tailq_head = (82 ∷ 84 ∷ []) ∷ replicate 31 [];
  tailqs_count = some 1;
  elems = rings ∷ [];
}

abbrev queues_after : Tailqs
queues_after = record {
  tailq_head = (82 ∷ 84 ∷ []) ∷ (77 ∷ 80 ∷ []) ∷ replicate 30 [];
  tailqs_count = some 2;
  elems = rings ∷ record pools { head = some 1 } ∷ [];
}

tailq_register_lem_example :
    ((tailq_register true queues pools ≡ (true, record pools { head = some 1 }, queues_after))
      × (has_name (rings ∷ []) (77 ∷ 80 ∷ []) ≡ false)
      × (tailq_lookup queues (77 ∷ 80 ∷ []) ≡ none)
      × (tailq_lookup queues_after (77 ∷ 80 ∷ []) ≡ some 1))
    ⊎ ((tailq_register true queues pools ≡ (false, record pools { head = none }, queues))
        × ((has_name (rings ∷ []) (77 ∷ 80 ∷ []) ≡ true)
            ⊎ ((i : ℕ) × (tailq_lookup queues (77 ∷ 80 ∷ []) ≡ some i))
            ⊎ (max_tailq ≤ 1 + 1)))
tailq_register_lem_example = tailq_register_lem queues pools 1 refl refl (omega arith)
