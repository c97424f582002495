-- ===== src/TcpServer/Posts.antt =====
-- The posts of a server: which connections loops are told to complete and to destroy.
use bounce.Prelude.{◌≡◌, refl, sym, ap, inl, inr, List, [], ◌∷◌, ◌++◌, ◌⊎◌}
use bounce.TcpServer.{
  Connection, Post, do_connect_complete, do_remove_in_loop, queue_destroy, queue_new_connection,
}

-- The connections that loops are told to destroy, in order.
unfoldable pub destroyed : List Post → List Connection
destroyed [] = []
destroyed (queue_destroy loop conn ∷ ps) = let rest = destroyed ps in conn ∷ rest
destroyed (do_connect_complete loop conn ∷ ps) = destroyed ps
destroyed (do_remove_in_loop loop conn ∷ ps) = destroyed ps
destroyed (queue_new_connection loop fd ∷ ps) = destroyed ps

pub destroyed-append : (ps qs : List Post) → destroyed (ps ++ qs) ≡ destroyed ps ++ destroyed qs
unfolding destroyed
destroyed-append [] qs = refl
destroyed-append (queue_destroy loop conn ∷ ps) qs = ap (λ l. conn ∷ l) (destroyed-append ps qs)
destroyed-append (do_connect_complete loop conn ∷ ps) qs = destroyed-append ps qs
destroyed-append (do_remove_in_loop loop conn ∷ ps) qs = destroyed-append ps qs
destroyed-append (queue_new_connection loop fd ∷ ps) qs = destroyed-append ps qs

-- The connections that loops are told to complete, in order.
unfoldable pub connected : List Post → List Connection
connected [] = []
connected (do_connect_complete loop conn ∷ ps) = let rest = connected ps in conn ∷ rest
connected (queue_destroy loop conn ∷ ps) = connected ps
connected (do_remove_in_loop loop conn ∷ ps) = connected ps
connected (queue_new_connection loop fd ∷ ps) = connected ps

pub connected-append : (ps qs : List Post) → connected (ps ++ qs) ≡ connected ps ++ connected qs
unfolding connected
connected-append [] qs = refl
connected-append (do_connect_complete loop conn ∷ ps) qs =
    ap (λ l. conn ∷ l) (connected-append ps qs)
connected-append (queue_destroy loop conn ∷ ps) qs = connected-append ps qs
connected-append (do_remove_in_loop loop conn ∷ ps) qs = connected-append ps qs
connected-append (queue_new_connection loop fd ∷ ps) qs = connected-append ps qs

-- Each post about a connection's completion or destruction goes to the connection's own loop.
abbrev pub AllOwn : List Post → Type 0
AllOwn [] = Unit {0}
AllOwn (queue_destroy loop conn ∷ ps) = (loop ≡ conn.loop) × AllOwn ps
AllOwn (do_connect_complete loop conn ∷ ps) = (loop ≡ conn.loop) × AllOwn ps
AllOwn (do_remove_in_loop loop conn ∷ ps) = AllOwn ps
AllOwn (queue_new_connection loop fd ∷ ps) = AllOwn ps

pub AllOwn-append : (ps qs : List Post) → AllOwn ps → AllOwn qs → AllOwn (ps ++ qs)
AllOwn-append [] qs a b = b
AllOwn-append (queue_destroy loop conn ∷ ps) qs a b = (a.0, AllOwn-append ps qs a.1 b)
AllOwn-append (do_connect_complete loop conn ∷ ps) qs a b = (a.0, AllOwn-append ps qs a.1 b)
AllOwn-append (do_remove_in_loop loop conn ∷ ps) qs a b = AllOwn-append ps qs a b
AllOwn-append (queue_new_connection loop fd ∷ ps) qs a b = AllOwn-append ps qs a b

-- A connection is in a list.
abbrev pub In : Connection → List Connection → Type 0
In c [] = ⊥
In c (d ∷ l) = (c ≡ d) ⊎ In c l

pub In-append : (c : Connection) (l m : List Connection) → In c l → In c (l ++ m)
In-append c [] m i = absurd i
In-append c (d ∷ l) m (inl e) = inl e
In-append c (d ∷ l) m (inr i) = inr (In-append c l m i)

pub In-last : (c : Connection) (l : List Connection) → In c (l ++ c ∷ [])
In-last c [] = inl refl
In-last c (d ∷ l) = inr (In-last c l)

pub In-cases : (c d : Connection) (l : List Connection) → In c (l ++ d ∷ []) → In c l ⊎ (c ≡ d)
In-cases c d [] (inl e) = inr e
In-cases c d [] (inr i) = absurd i
In-cases c d (x ∷ l) (inl e) = inl (inl e)
In-cases c d (x ∷ l) (inr i) = elim (In-cases c d l i) [ inl j ↦ inl (inr j) | inr e ↦ inr e ]

-- No connection is in a list twice.
abbrev pub Once : List Connection → Type 0
Once [] = Unit {0}
Once (c ∷ l) = (In c l → ⊥) × Once l

pub Once-last : (c : Connection) (l : List Connection) → Once l → (In c l → ⊥) → Once (l ++ c ∷ [])
Once-last c [] o new = (λ i. i, tt)
Once-last c (d ∷ l) o new = (
  λ i. elim (In-cases d c l i) [ inl j ↦ o.0 j | inr e ↦ new (inl (sym e)) ],
  Once-last c l o.1 (λ i. new (inr i)),
)
