-- ===== src/TcpServer/Life.antt =====
-- The connections of a server over any sequence of connects and removals.
use mathlib.Core.List.{append-nil}
use bounce.Prelude.{
  ℕ, ◌≡◌, ◌≢◌, refl, sym, subst, ap, ◌∙◌, inl, inr, none, some, [], ◌∷◌, ◌++◌, ◌⊎◌, Bool-cases,
  some_eq,
}
use bounce.Prelude.Int.{ℤ, eq_int, eq_int-eq, eq_int_refl}
use bounce.TcpServer.{
  Connection, do_connect_complete, queue_destroy, TcpServer, new_connection,
  remove_connection_in_loop,
}
use bounce.TcpServer.Posts.{
  destroyed, destroyed-append, connected, connected-append, In, In-append, In-last, In-cases, Once,
  Once-last, AllOwn, AllOwn-append,
}
use bounce.TcpServer.Connections.{
  HasLoops, Connects, new_connection-Connects, Removes, remove_connection_in_loop-once,
}

-- Every connection that was made is in the map, under its descriptor, or has been destroyed, and none
-- is destroyed twice or while it is in the map. It is its own loop that is told to complete and to
-- destroy each.
pub record Lives (s : TcpServer) : Type 0 where
  pub loops : HasLoops s
  pub kept :
      (c : Connection)
      → In c (connected s.posts)
      → (s.connection_map c.fd ≡ some c) ⊎ In c (destroyed s.posts)
  pub mapped :
      (fd : ℤ) (c : Connection)
      → s.connection_map fd ≡ some c
      → (c.fd ≡ fd) × In c (connected s.posts) × (In c (destroyed s.posts) → ⊥)
  pub known : (c : Connection) → In c (destroyed s.posts) → In c (connected s.posts)
  pub once : Once (destroyed s.posts)
  pub own : AllOwn s.posts

int-cases : (i j : ℤ) → (i ≡ j) ⊎ (i ≢ j)
int-cases i j = elim (Bool-cases (eq_int i j)) [
  | inl same ↦ inl (eq_int-eq i j same)
  | inr other ↦ inr (λ e. cc (other, eq_int_refl i, ap (eq_int i) e))
]

module _ {s s' : TcpServer} {conn : Connection} (lives : Lives s) where
  module _ (step : Connects conn.fd s s' conn) (free : s.connection_map conn.fd ≡ none)
      (fresh : (d : Connection) → In d (connected s.posts) → d.address ≢ conn.address) where
    made : connected s'.posts ≡ connected s.posts ++ conn ∷ []
    unfolding connected
    made =
        ap connected step.posted
        ∙ connected-append s.posts (do_connect_complete conn.loop conn ∷ [])

    gone : destroyed s'.posts ≡ destroyed s.posts
    unfolding destroyed
    gone =
        ap destroyed step.posted
        ∙ destroyed-append s.posts (do_connect_complete conn.loop conn ∷ [])
        ∙ append-nil (destroyed s.posts)

    newest :
        (fd : ℤ) (c : Connection)
        → conn.fd ≡ fd
        → conn ≡ c
        → (c.fd ≡ fd) × In c (connected s'.posts) × (In c (destroyed s'.posts) → ⊥)
    newest fd c at is = (
      ap (λ (d : Connection). d.fd) (sym is) ∙ at,
      subst (In c) (sym made) (
          subst (λ d. In d (connected s.posts ++ conn ∷ [])) is (In-last conn (connected s.posts))),
      λ i.
          fresh c (lives.known c (subst (In c) gone i))
            (ap (λ (d : Connection). d.address) (sym is)),
    )

    Connects-Lives : Lives s'
    Connects-Lives = record {
      loops = step.loops;
      kept = λ c i. elim (In-cases c conn (connected s.posts) (subst (In c) made i)) [
        | inl old ↦ elim (lives.kept c old) [
          | inl e ↦ elim (int-cases conn.fd c.fd) [
            | inl same ↦ cc (e, free, ap s.connection_map same)
            | inr ne ↦ inl (step.others c.fd ne ∙ e)
          ]
          | inr d ↦ inr (subst (In c) (sym gone) d)
        ]
        | inr e ↦ inl (subst (λ d. s'.connection_map d.fd ≡ some d) (sym e) step.known)
      ];
      mapped = λ fd c e. elim (int-cases conn.fd fd) [
        | inl same ↦ newest fd c same (some_eq (sym step.known ∙ ap s'.connection_map same ∙ e))
        | inr ne ↦
            let old = lives.mapped fd c (sym (step.others fd ne) ∙ e) in
            (
              old.0,
              subst (In c) (sym made) (In-append c (connected s.posts) (conn ∷ []) old.1),
              λ i. old.2 (subst (In c) gone i),
            )
      ];
      known = λ c i.
          subst (In c) (sym made)
            (In-append c (connected s.posts) (conn ∷ []) (lives.known c (subst (In c) gone i)));
      once = subst Once (sym gone) lives.once;
      own =
          subst AllOwn (sym step.posted)
            (AllOwn-append s.posts (do_connect_complete conn.loop conn ∷ []) lives.own (refl, tt));
    }

  module _ (step : Removes conn s s') (there : s.connection_map conn.fd ≡ some conn)
      (has_loops : HasLoops s') where
    same_made : connected s'.posts ≡ connected s.posts
    unfolding connected
    same_made =
        ap connected step.posted
        ∙ connected-append s.posts (queue_destroy conn.loop conn ∷ [])
        ∙ append-nil (connected s.posts)

    one_more : destroyed s'.posts ≡ destroyed s.posts ++ conn ∷ []
    unfolding destroyed
    one_more =
        ap destroyed step.posted ∙ destroyed-append s.posts (queue_destroy conn.loop conn ∷ [])

    last : (conn.fd ≡ conn.fd) × In conn (connected s.posts) × (In conn (destroyed s.posts) → ⊥)
    last = lives.mapped conn.fd conn there

    Removes-Lives : Lives s'
    Removes-Lives = record {
      loops = has_loops;
      kept = λ c i. elim (lives.kept c (subst (In c) same_made i)) [
        | inl e ↦ elim (int-cases conn.fd c.fd) [
          | inl same ↦ inr (
              subst (In c) (sym one_more) (
                subst (λ d. In d (destroyed s.posts ++ conn ∷ []))
                  (some_eq (sym there ∙ ap s.connection_map same ∙ e))
                  (In-last conn (destroyed s.posts))))
          | inr ne ↦ inl (step.others c.fd ne ∙ e)
        ]
        | inr d ↦ inr (subst (In c) (sym one_more) (In-append c (destroyed s.posts) (conn ∷ []) d))
      ];
      mapped = λ fd c e. elim (int-cases conn.fd fd) [
        | inl same ↦ cc (e, step.gone, ap s'.connection_map same)
        | inr ne ↦
            let old = lives.mapped fd c (sym (step.others fd ne) ∙ e) in
            (
              old.0,
              subst (In c) (sym same_made) old.1,
              λ i. elim (In-cases c conn (destroyed s.posts) (subst (In c) one_more i)) [
                | inl j ↦ old.2 j
                | inr is ↦ ne (ap (λ (d : Connection). d.fd) (sym is) ∙ old.0)
              ],
            )
      ];
      known = λ c i. elim (In-cases c conn (destroyed s.posts) (subst (In c) one_more i)) [
        | inl j ↦ subst (In c) (sym same_made) (lives.known c j)
        | inr is ↦
            subst (In c) (sym same_made) (subst (λ d. In d (connected s.posts)) (sym is) last.1)
      ];
      once = subst Once (sym one_more) (Once-last conn (destroyed s.posts) lives.once last.2);
      own =
          subst AllOwn (sym step.posted)
            (AllOwn-append s.posts (queue_destroy conn.loop conn ∷ []) lives.own (refl, tt));
    }

remove_connection_in_loop-loops :
    (conn : Connection) (s : TcpServer)
    → HasLoops s
    → s.connection_map conn.fd ≡ some conn
    → HasLoops (remove_connection_in_loop conn s)
unfolding remove_connection_in_loop
remove_connection_in_loop-loops conn s h e =
    rw (e, remove_connection_in_loop) (record { loops = h.loops })

-- Connections that are made of descriptors that are not in the map, as new objects, and removals of
-- connections that are in it, in any order.
pub data Reach (s : TcpServer) : TcpServer → Type 0 where
  here : Reach s s
  makes :
      {t u : TcpServer} (address : ℕ) (fd : ℤ)
      → Reach s t
      → t.connection_map fd ≡ none
      → ((d : Connection) → In d (connected t.posts) → d.address ≢ address)
      → new_connection address fd t ≡ some u
      → Reach s u
  removes :
      {t : TcpServer} (conn : Connection)
      → Reach s t
      → t.connection_map conn.fd ≡ some conn
      → Reach s (remove_connection_in_loop conn t)

-- If a server has its loops and each connection that was made is in the map under its descriptor
-- or has been given to its own loop to be destroyed, and none is destroyed twice or while it is in
-- the map, and its own loop was told to complete each, then this stays so, whatever connections it makes, as new objects of descriptors that
-- are not in the map, and whichever it removes that are in it.
pub Reach-Lives : {s t : TcpServer} → Lives s → Reach s t → Lives t
Reach-Lives v here = v
Reach-Lives v (makes {t} {u} address fd r free fresh e) =
    let before = Reach-Lives v r in
    let (w, conn, made_w, named, step) = new_connection-Connects address fd t before.loops free in
    subst Lives (some_eq (sym made_w ∙ e)) (
      Connects-Lives before (subst (λ g. Connects g t w conn) (sym step.own) step)
        (ap t.connection_map step.own ∙ free) (λ d i same. fresh d i (same ∙ named)))
Reach-Lives v (removes {t} conn r there) =
    let before = Reach-Lives v r in
    Removes-Lives before (remove_connection_in_loop-once conn conn t there).0 there
      (remove_connection_in_loop-loops conn t before.loops there)
