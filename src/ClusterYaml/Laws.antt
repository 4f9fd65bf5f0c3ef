-- ===== src/ClusterYaml/Laws.antt =====
-- What a change of the roles does to the manifest.
use cnpg_portal.Prelude.{
  Text, codes, eq_text, List, [], ◌∷◌, true, false, ◌≡◌, refl, ap, Option, some, Bool-cases, inl,
  inr, eq_text_iff, ◌∙◌, sym, subst,
}
use cnpg_portal.Result.{Error, Result, ok}
use cnpg_portal.Result.Bind.{>>=-eq-ok}
use cnpg_portal.ClusterYaml.{
  message, on_root, at_path, on_roles, Node, node, Nodes, nil, cons, items, from_items, find_pair,
  find_child, on_pair, on_child, on_sequence, content_of, at_root, scalar_node, alias_node,
  roles_of, value_of, document_node, sequence_node, mapping_node,
}

items-from_items : (ns : List Node) → items (from_items ns) ≡ ns
unfolding items from_items
items-from_items [] = refl
items-from_items (n ∷ ns) = ap (λ (r : List Node). n ∷ r) (items-from_items ns)

-- One value of a mapping has changed: the one under the key, and as `f` says. What is found under
-- any other key is as it was.
record IsEdit (key : Text) (f : Node → Result Node) (find find' : Text → Option Node) : Type 0 where
  old : Node
  new : Node
  found_old : find key ≡ some old
  changed : f old ≡ ok new
  found_new : find' key ≡ some new
  frame : (k : Text) → eq_text key k ≡ false → find' k ≡ find k

-- `find` in a content that has one more pair in front, under another key or the same
abbrev find_in : Nodes → Text → Option Node
find_in ns k = find_pair k ns

find-hit :
    (key : Text) (k v : Node) (rest : Nodes)
    → eq_text (value_of k) key ≡ true
    → find_pair key (cons k (cons v rest)) ≡ some v
unfolding find_pair
find-hit key k v rest e = rw e

find-miss :
    (key : Text) (k v : Node) (rest : Nodes)
    → eq_text (value_of k) key ≡ false
    → find_pair key (cons k (cons v rest)) ≡ find_pair key rest
unfolding find_pair
find-miss key k v rest e = rw e

pub some_injective {ℓ} : {A : Type ℓ} {a b : A} → some a ≡ some b → a ≡ b
some_injective h = cc

pub ok_injective {ℓ} : {A : Type ℓ} {a b : A} → ok a ≡ ok b → a ≡ b
ok_injective h = cc

here-IsEdit :
    (key : Text) (f : Node → Result Node) (k v v' : Node) (rest : Nodes)
    → eq_text (value_of k) key ≡ true
    → f v ≡ ok v'
    → IsEdit key f (find_in (cons k (cons v rest))) (find_in (cons k (cons v' rest)))
here-IsEdit key f k v v' rest e made = record {
  old = v;
  new = v';
  found_old = find-hit key k v rest e;
  changed = made;
  found_new = find-hit key k v' rest e;
  frame = λ j other.
      let miss : eq_text (value_of k) j ≡ false = rw ((eq_text_iff (value_of k) key).0 e) other in
      find-miss j k v' rest miss ∙ sym (find-miss j k v rest miss);
}

cons-frame :
    (k v : Node) (rest rest' : Nodes) (j : Text)
    → find_pair j rest' ≡ find_pair j rest
    → find_pair j (cons k (cons v rest')) ≡ find_pair j (cons k (cons v rest))
unfolding find_pair
cons-frame k v rest rest' j h = rw h

further-IsEdit :
    (key : Text) (f : Node → Result Node) (k v : Node) (rest rest' : Nodes)
    → eq_text (value_of k) key ≡ false
    → IsEdit key f (find_in rest) (find_in rest')
    → IsEdit key f (find_in (cons k (cons v rest))) (find_in (cons k (cons v rest')))
further-IsEdit key f k v rest rest' e c = record {
  old = c.old;
  new = c.new;
  found_old = find-miss key k v rest e ∙ c.found_old;
  changed = c.changed;
  found_new = find-miss key k v rest' e ∙ c.found_new;
  frame = λ j other. cons-frame k v rest rest' j (c.frame j other);
}

on_pair-IsEdit :
    (key : Text) (f : Node → Result Node) (missing : Error) (ns ns' : Nodes)
    → on_pair key f missing ns ≡ ok ns'
    → IsEdit key f (find_in ns) (find_in ns')
unfolding on_pair
on_pair-IsEdit key f missing nil ns' h = absurd (cc h)
on_pair-IsEdit key f missing (cons k nil) ns' h = absurd (cc h)
on_pair-IsEdit key f missing (cons k (cons v rest)) ns' h =
    elim (Bool-cases (eq_text (value_of k) key)) [
      | inl e ↦
          let (v', made, same) = >>=-eq-ok (f v) _ (rw e at h) in
          subst (λ ms. IsEdit key f (find_in (cons k (cons v rest))) (find_in ms))
            (ok_injective same) (here-IsEdit key f k v v' rest e made)
      | inr e ↦
          let (rest', made, same) = >>=-eq-ok (on_pair key f missing rest) _ (rw e at h) in
          subst (λ ms. IsEdit key f (find_in (cons k (cons v rest))) (find_in ms))
            (ok_injective same)
            (further-IsEdit key f k v rest rest' e (on_pair-IsEdit key f missing rest rest' made))
    ]

on_child-IsEdit :
    (key : Text) (f : Node → Result Node) (missing : Error) (n n' : Node)
    → on_child key f missing n ≡ ok n'
    → IsEdit key f (find_child (some n)) (find_child (some n'))
unfolding on_child find_child
on_child-IsEdit key f missing (node mapping_node tag value trivia content) n' h =
    let (content', made, same) = >>=-eq-ok (on_pair key f missing content) _ h in
    subst (λ m. IsEdit key f (find_in content) (find_child (some m))) (ok_injective same)
      (on_pair-IsEdit key f missing content content' made)
on_child-IsEdit key f missing (node document_node tag value trivia content) n' h = absurd (cc h)
on_child-IsEdit key f missing (node sequence_node tag value trivia content) n' h = absurd (cc h)
on_child-IsEdit key f missing (node scalar_node tag value trivia content) n' h = absurd (cc h)
on_child-IsEdit key f missing (node alias_node tag value trivia content) n' h = absurd (cc h)

-- The roles of a manifest have changed as `fn` says, and nothing else that can be found in it: no
-- key of the root but `spec`, no key of `spec` but `managed`, no key of `managed` but `roles`.
pub record IsRolesEdit (fn : List Node → Result (List Node)) (doc doc' : Node) : Type 0 where
  pub roles : List Node
  pub roles' : List Node
  pub was : roles_of doc ≡ some roles
  pub changed : fn roles ≡ ok roles'
  pub is : roles_of doc' ≡ some roles'
  pub root_frame :
      (k : Text) → eq_text (codes "spec") k ≡ false → at_root doc' (k ∷ []) ≡ at_root doc (k ∷ [])
  pub spec_frame :
      (k : Text)
      → eq_text (codes "managed") k ≡ false
      → at_root doc' (codes "spec" ∷ k ∷ []) ≡ at_root doc (codes "spec" ∷ k ∷ [])
  pub managed_frame :
      (k : Text)
      → eq_text (codes "roles") k ≡ false
      → at_root doc' (codes "spec" ∷ codes "managed" ∷ k ∷ [])
        ≡ at_root doc (codes "spec" ∷ codes "managed" ∷ k ∷ [])

on_sequence-content :
    (fn : List Node → Result (List Node)) (n n' : Node)
    → on_sequence fn n ≡ ok n'
    → (rs rs' : List Node) × (content_of (some n) ≡ some rs)
      × (fn rs ≡ ok rs')
      × (content_of (some n') ≡ some rs')
unfolding on_sequence
on_sequence-content fn (node sequence_node tag value trivia content) n' h =
    let (rs', made, same) = >>=-eq-ok (fn (items content)) _ h in
    (
      items content,
      rs',
      refl,
      made,
      subst (λ m. content_of (some m) ≡ some rs') (ok_injective same)
          (ap some (items-from_items rs')),
    )
on_sequence-content fn (node document_node tag value trivia content) n' h = absurd (cc h)
on_sequence-content fn (node mapping_node tag value trivia content) n' h = absurd (cc h)
on_sequence-content fn (node scalar_node tag value trivia content) n' h = absurd (cc h)
on_sequence-content fn (node alias_node tag value trivia content) n' h = absurd (cc h)

-- how a value is looked up below another
find_below :
    (n : Option Node) (key : Text) (v : Node) (keys : List Text)
    → find_child n key ≡ some v
    → at_path n (key ∷ keys) ≡ at_path (some v) keys
unfolding at_path
find_below n key v keys h = rw h

abbrev managed_error : Error
managed_error = message (codes "missing spec.managed (no declarative role management configured)")

abbrev document : Text → Text → Text → Node → Nodes → Node
document tag value trivia root rest = node document_node tag value trivia (cons root rest)

on_roles_document :
    (fn : List Node → Result (List Node)) (tag value trivia : Text) (root root' : Node)
    (rest : Nodes)
    → on_root fn root ≡ ok root'
    → IsRolesEdit fn (document tag value trivia root rest) (document tag value trivia root' rest)
unfolding on_root roles_of at_root at_path
on_roles_document fn tag value trivia root root' rest h =
    let spec = on_child-IsEdit (codes "spec") _ _ root root' h in
    let managed = on_child-IsEdit (codes "managed") _ _ spec.old spec.new spec.changed in
    let seq = on_child-IsEdit (codes "roles") _ _ managed.old managed.new managed.changed in
    let (rs, rs', was, made, is) = on_sequence-content fn seq.old seq.new seq.changed in
    record {
      roles = rs;
      roles' = rs';
      was = rw (spec.found_old, managed.found_old, seq.found_old) was;
      changed = made;
      is = rw (spec.found_new, managed.found_new, seq.found_new) is;
      root_frame = spec.frame;
      spec_frame = λ k other. rw (spec.found_old, spec.found_new) (managed.frame k other);
      managed_frame = λ k other.
          rw (spec.found_old, spec.found_new, managed.found_old, managed.found_new)
            (seq.frame k other);
    }

-- Every change of the roles that succeeds is what the change makes of the old list of roles, and it
-- leaves what stands under other keys of the root, of spec and of managed as it was.
pub on_roles-IsRolesEdit :
    (fn : List Node → Result (List Node)) (doc doc' : Node)
    → on_roles fn doc ≡ ok doc'
    → IsRolesEdit fn doc doc'
unfolding on_roles
on_roles-IsRolesEdit fn (node document_node tag value trivia (cons root rest)) doc' h =
    let (root', made, same) = >>=-eq-ok (on_root fn root) _ h in
    subst (IsRolesEdit fn (document tag value trivia root rest)) (ok_injective same)
      (on_roles_document fn tag value trivia root root' rest made)
on_roles-IsRolesEdit fn (node document_node tag value trivia nil) doc' h = absurd (cc h)
on_roles-IsRolesEdit fn (node sequence_node tag value trivia content) doc' h = absurd (cc h)
on_roles-IsRolesEdit fn (node mapping_node tag value trivia content) doc' h = absurd (cc h)
on_roles-IsRolesEdit fn (node scalar_node tag value trivia content) doc' h = absurd (cc h)
on_roles-IsRolesEdit fn (node alias_node tag value trivia content) doc' h = absurd (cc h)
