-- ===== src/State/Registry.antt =====
-- What the operations on the registry of connections do to it.
use rabb1t_claw.Base.{
  List, [], ◌∷◌, ◌++◌, if◌then◌else◌, inl, inr, ◌≡◌, refl, sym, ap, ◌∙◌, subst, arith,
  Occurs-append_left, Occurs-append_right, Text, text_eq, text_eq_iff, lookup, is_empty, retain,
  Occurs, lookup-insert, lookup-remove, Bool-cases, Option-cases,
}
use rabb1t_claw.State.{
  ActiveConnection, ConnectionRegistry, connections_of, register_in, unregister_in, other_than,
  targets, signal_all,
}

pub connections_of-register :
    (r : ConnectionRegistry) (token conn_id j : Text)
    → connections_of (register_in r token conn_id) j ≡ (
        if text_eq token j
        then connections_of r token ++ record { conn_id = conn_id } ∷ []
        else connections_of r j)
unfolding connections_of register_in
connections_of-register r token conn_id j = rw (lookup-insert token j _ r) (ground arith)

pub connections_of-unregister :
    (r : ConnectionRegistry) (token conn_id j : Text)
    → connections_of (unregister_in r token conn_id) j ≡ (
        if text_eq token j
        then retain (other_than conn_id) (connections_of r token)
        else connections_of r j)
unfolding connections_of unregister_in
connections_of-unregister r token conn_id j = elim (Option-cases (lookup token r)) [
  | inl e ↦ elim (Bool-cases (text_eq token j)) [
    | inl x ↦
        let none_too = ap (λ k. lookup k r) (sym ((text_eq_iff token j).0 x)) ∙ e in
        rw (e, x, none_too) refl
    | inr x ↦ rw (e, x) refl
  ]
  | inr (conns, e) ↦
      let left = retain (other_than conn_id) conns in
      elim (Bool-cases (is_empty left)) [
        | inl x ↦ rw (e, x, lookup-remove token j r) (ground arith)
        | inr x ↦ rw (e, x, lookup-insert token j left r) (ground arith)
      ]
]

pub targets-Occurs :
    (r : ConnectionRegistry) (tokens : List Text) (token : Text) (c : ActiveConnection)
    → Occurs token tokens
    → Occurs c (connections_of r token)
    → Occurs c (targets r tokens)
unfolding targets
targets-Occurs r [] token c o p = elim o [ ]
targets-Occurs r (t ∷ tokens) token c (inl e) p =
    Occurs-append_left c (connections_of r t) (targets r tokens)
      (subst (λ i. Occurs c (connections_of r i)) e p)
targets-Occurs r (t ∷ tokens) token c (inr o) p =
    Occurs-append_right c (connections_of r t) (targets r tokens)
      (targets-Occurs r tokens token c o p)

pub signal_all-keeps :
    (flags : List Text) (conns : List ActiveConnection) (i : Text)
    → Occurs i flags
    → Occurs i (signal_all flags conns)
unfolding signal_all
signal_all-keeps flags [] i o = o
signal_all-keeps flags (c ∷ conns) i o = signal_all-keeps (c.conn_id ∷ flags) conns i (inr o)

pub signal_all-Occurs :
    (flags : List Text) (conns : List ActiveConnection) (c : ActiveConnection)
    → Occurs c conns
    → Occurs c.conn_id (signal_all flags conns)
unfolding signal_all
signal_all-Occurs flags [] c o = elim o [ ]
signal_all-Occurs flags (d ∷ conns) c (inl e) =
    signal_all-keeps (d.conn_id ∷ flags) conns c.conn_id (inl (ap (λ x. x.conn_id) e))
signal_all-Occurs flags (d ∷ conns) c (inr o) = signal_all-Occurs (d.conn_id ∷ flags) conns c o
