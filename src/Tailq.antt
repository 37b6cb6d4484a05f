-- ===== src/Tailq.antt =====
-- The tail queues that processes share: lib/common/eal_common_tailqs.c and
-- lib/common/include/rte_tailq.h. The elements of a queue are those of its owner and are not kept.
use rte_demo.Prelude.{
  same_name, ℕ, zero, suc, ◌+◌, ◌-◌, ◌*◌, ◌^◌, List, [], ◌∷◌, ◌++◌, take, set, Option, none, some,
  Bool, true, false, ltb, ◌==◌, if◌then◌else◌,
}
pub mod Entries
pub mod Registered
mod Tests

-- `RTE_MAX_TAILQ`, `RTE_TAILQ_NAMESIZE`
abbrev pub max_tailq : ℕ
max_tailq = 32

abbrev pub tailq_namesize : ℕ
tailq_namesize = 32

-- `struct rte_tailq_elem`; `head` is the index of the queue in the shared table.
pub record TailqElem : Type 0 where
  pub name : List ℕ
  pub head : Option ℕ

-- The names in the shared table, `rte_tailqs_count` with `none` for -1, and the local list.
pub record Tailqs : Type 0 where
  pub tailq_head : List (List ℕ)
  pub tailqs_count : Option ℕ
  pub elems : List TailqElem

-- The loop of `rte_eal_tailq_lookup`, from the index `i` on.
unfoldable pub find_head : List (List ℕ) → ℕ → List ℕ → Option ℕ
find_head [] i name = none
find_head (h ∷ hs) i name =
    let rest = find_head hs (i + 1) name in
    if same_name (take (tailq_namesize - 1) name) (take (tailq_namesize - 1) h)
    then some i
    else rest

unfoldable pub tailq_lookup : Tailqs → List ℕ → Option ℕ
unfolding find_head
tailq_lookup s name = find_head s.tailq_head 0 name

-- `rte_eal_tailq_create`, called when the count is `count`; `snprintf` keeps one character less than
-- there is room for.
abbrev pub create_new : Tailqs → List ℕ → (count : ℕ) → Option ℕ → Option ℕ × Tailqs
create_new s name count (some i) = (none, s)
create_new s name count none =
    if ltb (count + 1) max_tailq
    then (
      some count,
      record s {
        tailq_head = set s.tailq_head count (take (tailq_namesize - 2) name);
        tailqs_count = some (count + 1);
      },
    )
    else (none, s)

unfoldable pub tailq_create : Tailqs → List ℕ → (count : ℕ) → Option ℕ × Tailqs
tailq_create s name count = create_new s name count (tailq_lookup s name)

-- The loop of `rte_eal_tailq_local_register`: whether the name is there.
unfoldable pub has_name : List TailqElem → List ℕ → Bool
has_name [] name = false
has_name (t ∷ ts) name =
    let rest = has_name ts name in
    if same_name (take tailq_namesize name) (take tailq_namesize t.name) then true else rest

-- `rte_eal_tailq_update`: the head, and the state.
unfoldable pub tailq_update : (primary : Bool) → Tailqs → List ℕ → (count : ℕ) → Option ℕ × Tailqs
tailq_update primary s name count =
    if primary then tailq_create s name count else (tailq_lookup s name, s)

-- After `rte_eal_tailq_local_register`: whether the function returns 0, the element and the state.
-- `s` has the local list without the element.
abbrev pub attached : Tailqs → List ℕ → Option ℕ × Tailqs → Bool × TailqElem × Tailqs
attached s name (none, s') =
    (false, record { name = name; head = none }, record s' { elems = s.elems })
attached s name (some h, s') =
    let t : TailqElem = record { name = name; head = some h } in
    (true, t, record s' { elems = s.elems ++ (t ∷ []) })

abbrev pub late :
    (primary : Bool) → Tailqs → List ℕ → (head count : Option ℕ) → Bool × TailqElem × Tailqs
late primary s name head none =
    let t : TailqElem = record { name = name; head = head } in
    (true, t, record s { elems = s.elems ++ (t ∷ []) })
late primary s name head (some count) = attached s name (tailq_update primary s name count)

-- `rte_eal_tailq_register`
unfoldable pub tailq_register : (primary : Bool) → Tailqs → TailqElem → Bool × TailqElem × Tailqs
tailq_register primary s t =
    if has_name s.elems t.name
    then (false, record t { head = none }, s)
    else late primary s t.name t.head s.tailqs_count

-- The loop of `rte_eal_tailqs_init` over the local list: whether all got a head. `before` is the
-- part of the list that has one.
abbrev pub init_step :
    Tailqs
    → (before : List TailqElem) → TailqElem
    → List TailqElem
    → Option ℕ
    → Bool × Tailqs
    → Bool × Tailqs
init_step s before t ts none rest =
    (false, record s { elems = before ++ (record t { head = none } ∷ ts) })
init_step s before t ts (some h) rest = rest

abbrev pub count_of : Tailqs → ℕ
count_of s = elim s.tailqs_count [ none ↦ 0 | some n ↦ n ]

unfoldable pub init_elems :
    (primary : Bool) → Tailqs → (before todo : List TailqElem) → Bool × Tailqs
unfolding tailq_update
init_elems primary s before [] = (true, record s { elems = before })
init_elems primary s before (t ∷ ts) =
    let (head, s') = tailq_update primary s t.name (count_of s) in
    let rest = init_elems primary s' (before ++ (record t { head = head } ∷ [])) ts in
    init_step s' before t ts head rest

-- `rte_eal_tailqs_init`
unfoldable pub tailqs_init : (primary : Bool) → Tailqs → Bool × Tailqs
unfolding init_elems
tailqs_init primary s = init_elems primary (record s { tailqs_count = some 0 }) [] s.elems
