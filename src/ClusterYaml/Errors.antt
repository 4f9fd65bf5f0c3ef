-- ===== src/ClusterYaml/Errors.antt =====
-- The errors of a change of the roles.
use cnpg_portal.Prelude.{
  inr, inl, Bool-cases, Text, codes, List, [], ◌∷◌, ◌≡◌, refl, Option, some, none,
}
use cnpg_portal.Result.{Error, Result, err}
use cnpg_portal.ClusterYaml.{
  eq_text, on_root, at_path, on_roles, Node, node, Nodes, nil, cons, find_pair, find_child, on_pair,
  on_child, on_sequence, content_of, at_root, scalar_node, alias_node, roles_of, value_of,
  document_node, sequence_node, mapping_node,
}
use cnpg_portal.ClusterYaml.Laws.{some_injective}

-- An error of the change of the roles is the error of the whole change.
on_pair-err :
    (key : Text) (f : Node → Result Node) (missing e : Error) (v : Node) (ns : Nodes)
    → find_pair key ns ≡ some v
    → f v ≡ err e
    → on_pair key f missing ns ≡ err e
unfolding on_pair find_pair
on_pair-err key f missing e v nil h k = absurd (cc h)
on_pair-err key f missing e v (cons n nil) h k = absurd (cc h)
on_pair-err key f missing e v (cons n (cons w rest)) h k =
    elim (Bool-cases (eq_text (value_of n) key)) [
      | inl hit ↦
          let same : some w ≡ some v = rw hit at h in rw hit (rw (some_injective same) (rw k))
      | inr miss ↦
          let below : find_pair key rest ≡ some v = rw miss at h in
          rw miss (rw (on_pair-err key f missing e v rest below k))
    ]

on_child-err :
    (key : Text) (f : Node → Result Node) (missing e : Error) (n v : Node)
    → find_child (some n) key ≡ some v
    → f v ≡ err e
    → on_child key f missing n ≡ err e
unfolding on_child find_child
on_child-err key f missing e (node mapping_node tag value trivia content) v h k =
    rw (on_pair-err key f missing e v content h k)
on_child-err key f missing e (node document_node tag value trivia content) v h k = absurd (cc h)
on_child-err key f missing e (node sequence_node tag value trivia content) v h k = absurd (cc h)
on_child-err key f missing e (node scalar_node tag value trivia content) v h k = absurd (cc h)
on_child-err key f missing e (node alias_node tag value trivia content) v h k = absurd (cc h)

on_sequence-err :
    (fn : List Node → Result (List Node)) (n : Node) (rs : List Node) (e : Error)
    → content_of (some n) ≡ some rs
    → fn rs ≡ err e
    → on_sequence fn n ≡ err e
unfolding on_sequence
on_sequence-err fn (node sequence_node tag value trivia content) rs e h k =
    rw (some_injective h) (rw k)
on_sequence-err fn (node document_node tag value trivia content) rs e h k = absurd (cc h)
on_sequence-err fn (node mapping_node tag value trivia content) rs e h k = absurd (cc h)
on_sequence-err fn (node scalar_node tag value trivia content) rs e h k = absurd (cc h)
on_sequence-err fn (node alias_node tag value trivia content) rs e h k = absurd (cc h)

find_child-none : (key : Text) → find_child none key ≡ none
unfolding find_child
find_child-none key = refl

-- A node is found below another that is found.
find_two :
    (o : Option Node) (key : Text) (v : Node)
    → find_child o key ≡ some v
    → (m : Node) × (o ≡ some m) × (find_child (some m) key ≡ some v)
find_two none key v h = absurd (cc (h, find_child-none key))
find_two (some m) key v h = (m, refl, h)

content_found :
    (o : Option Node) (rs : List Node) → content_of o ≡ some rs → (n : Node) × (o ≡ some n)
content_found none rs h = absurd (cc h)
content_found (some n) rs h = (n, refl)

on_root-err :
    (fn : List Node → Result (List Node)) (root : Node) (rs : List Node) (e : Error)
    → content_of (at_path (some root) (codes "spec" ∷ codes "managed" ∷ codes "roles" ∷ []))
      ≡ some rs
    → fn rs ≡ err e
    → on_root fn root ≡ err e
unfolding on_root at_path
on_root-err fn root rs e h k =
    let spec' = find_child (some root) (codes "spec") in
    let managed' = find_child spec' (codes "managed") in
    let (seq, found) = content_found (find_child managed' (codes "roles")) rs h in
    let (managed, m_found, below) = find_two managed' (codes "roles") seq found in
    let (spec, s_found, between) = find_two spec' (codes "managed") managed m_found in
    on_child-err (codes "spec") _ _ e root spec s_found (
      on_child-err (codes "managed") _ _ e spec managed between (
        on_child-err (codes "roles") _ _ e managed seq below
          (on_sequence-err fn seq rs e (rw found at h) k)))

pub on_roles-err :
    (fn : List Node → Result (List Node)) (doc : Node) (rs : List Node) (e : Error)
    → roles_of doc ≡ some rs
    → fn rs ≡ err e
    → on_roles fn doc ≡ err e
unfolding on_roles roles_of at_root
on_roles-err fn (node document_node tag value trivia (cons root rest)) rs e h k =
    rw (on_root-err fn root rs e h k)
on_roles-err fn (node document_node tag value trivia nil) rs e h k = absurd (cc h)
on_roles-err fn (node sequence_node tag value trivia content) rs e h k = absurd (cc h)
on_roles-err fn (node mapping_node tag value trivia content) rs e h k = absurd (cc h)
on_roles-err fn (node scalar_node tag value trivia content) rs e h k = absurd (cc h)
on_roles-err fn (node alias_node tag value trivia content) rs e h k = absurd (cc h)
