-- ===== src/Wbcm/Owners.antt =====
-- `assign_user_id`, `assign_device_id` and `remove_connection`: what becomes of a connection's id.
use py_app_runner.Prelude.{
  String, ◌≡◌, refl, subst, ◌≢◌, inl, inr, true, not, none, some, List, [], ◌∷◌, ◌++◌, str_eq,
  eq_iff, Bool-cases, if_both, filter, All, AllPairs-snoc,
}
use py_app_runner.Wbcm.Connections.{
  Conn, Entry, Connections, holds_id, is_kept, unassign, enlist, assign_id, ids_of,
  remove_connection, unassign_connection,
}
use py_app_runner.Wbcm.Tidy.{
  NoRepeats, OnlyUnder, Absent, holds_id-absent, remove_id-NoRepeats, unassign-All, unassign-gone,
  enlist-All,
}

holds_id_self : (c : String) (ids : List String) → holds_id c (ids ++ c ∷ []) ≡ true
unfolding holds_id
holds_id_self c [] = rw ((eq_iff c c).1 refl) refl
holds_id_self c (x ∷ ids) = if_both (λ b. b ≡ true) (str_eq c x) refl (holds_id_self c ids)

ids_of-enlist :
    (c owner : String) (es : List Entry) → holds_id c (ids_of owner (enlist c owner es)) ≡ true
unfolding enlist ids_of
ids_of-enlist c owner [] = rw ((eq_iff owner owner).1 refl) (holds_id_self c [])
ids_of-enlist c owner (e ∷ es) = elim (Bool-cases (str_eq e.owner owner)) [
  | inl q ↦ elim (Bool-cases (holds_id c e.conn_ids)) [
    | inl r ↦ rw (q, r, q) r
    | inr r ↦ rw (q, r, q) (holds_id_self c e.conn_ids)
  ]
  | inr q ↦ rw (q, q) (ids_of-enlist c owner es)
]

-- Where no list repeats an id, an assignment keeps it so; afterwards the connection stands in the
-- list of its new owner, and in no other owner's.
pub assign_id-OnlyUnder :
    (conn_id owner : String) (c : Connections)
    → All NoRepeats c.id_map
    → All NoRepeats (assign_id conn_id owner c).id_map
      × All (OnlyUnder conn_id owner) (assign_id conn_id owner c).id_map
      × (holds_id conn_id (ids_of owner (assign_id conn_id owner c).id_map) ≡ true)
unfolding assign_id is_kept
assign_id-OnlyUnder conn_id owner c h =
    let es = unassign conn_id (some owner) c.id_map in
    (
      enlist-All NoRepeats conn_id owner es (tt, tt)
          (λ e q r n. AllPairs-snoc ◌≢◌ e.conn_ids conn_id n (holds_id-absent conn_id e.conn_ids r))
          (unassign-All NoRepeats conn_id (some owner) c.id_map
            (λ e n. remove_id-NoRepeats conn_id e.conn_ids n) h),
      enlist-All (OnlyUnder conn_id owner) conn_id owner es (inl refl) (λ e q r n. inl q)
          (unassign-gone (OnlyUnder conn_id owner) conn_id (some owner) c.id_map
            (λ e q. inl ((eq_iff e.owner owner).0 q)) (λ e q. inr q) h),
      ids_of-enlist conn_id owner es,
    )

others_left :
    (uid : String) (conns : List Conn)
    → All (λ o. o.uid ≢ uid) (filter (λ o. not (str_eq o.uid uid)) conns)
others_left uid [] = tt
others_left uid (o ∷ conns) = elim (Bool-cases (str_eq o.uid uid)) [
  | inl q ↦ rw q (others_left uid conns)
  | inr q ↦ rw q (λ same. absurd (cc (q, (eq_iff o.uid uid).1 same)), others_left uid conns)
]

-- Where no list repeats an id, a connection that `remove_connection` removes is in no owner's list
-- and not among the connections, and still no list repeats an id.
pub remove_connection-Absent :
    (conn : Conn) (c c' : Connections)
    → All NoRepeats c.id_map
    → remove_connection conn c ≡ some c'
    → All NoRepeats c'.id_map
      × All (Absent conn.uid) c'.id_map
      × All (λ o. o.uid ≢ conn.uid) c'.connections
unfolding remove_connection unassign_connection is_kept
remove_connection-Absent conn c c' h e = elim (Bool-cases (str_eq conn.uid "")) [
  | inl q ↦ absurd (cc (rw q at e))
  | inr q ↦
      let same : some _ ≡ some c' = rw q at e in
      let same' : _ ≡ c' = cc in
      subst
        (λ (d : Connections).
          All NoRepeats d.id_map
          × All (Absent conn.uid) d.id_map
          × All (λ o. o.uid ≢ conn.uid) d.connections)
        same'
        (
          unassign-All NoRepeats conn.uid none c.id_map
              (λ e n. remove_id-NoRepeats conn.uid e.conn_ids n) h,
          unassign-gone (Absent conn.uid) conn.uid none c.id_map (λ e q. absurd (cc q)) (λ e q. q)
              h,
          others_left conn.uid c.connections,
        )
]
