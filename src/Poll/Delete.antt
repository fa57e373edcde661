-- ===== src/Poll/Delete.antt =====
-- PollFDDelete: the last live entry takes the place of the deleted one.
use mathlib.Core.List.{Perm, perm_middle}
use mathlib.Core.List.Perm
use libcastis_heartbeat.Prelude.{
  ℕ, suc, ◌+◌, ◌-◌, ◌<◌, ◌≡◌, ◌≢◌, refl, subst, ap, sym, ◌∙◌, ℤ, ==ℤ_true, ==ℤ_false, ℤ-cases, Bool,
  true, false, List, [], ◌∷◌, ◌++◌, length, set, get_or, replicate, All, append_assoc, append-nil,
  arith, length-append, ◌⊎◌, inl, inr,
}
use libcastis_heartbeat.Poll.{
  Pollfd, PollTable, invalid_socket, max_fd_size, empty_pollfd, remove_at, delete_from,
  poll_fd_delete,
}
use libcastis_heartbeat.Poll.Table.{
  table_of, IsLive, IsTable, set-append, get_or-append, All-append, table_of-free, table_of-snoc,
}

snoc-cases {ℓ} :
    {A : Type ℓ} (x : A) (xs : List A) → (init : List A) × (last : A) × (x ∷ xs ≡ init ++ last ∷ [])
snoc-cases x [] = ([], x, refl)
snoc-cases x (y ∷ ys) = let (init, last, e) = snoc-cases y ys in (x ∷ init, last, ap (◌∷◌ x) e)

All-left {ℓ κ} : {A : Type ℓ} (P : A → Type κ) (xs ys : List A) → All P (xs ++ ys) → All P xs
All-left P [] ys h = tt
All-left P (x ∷ xs) ys h = (h.0, All-left P xs ys h.1)

All-right {ℓ κ} : {A : Type ℓ} (P : A → Type κ) (xs ys : List A) → All P (xs ++ ys) → All P ys
All-right P [] ys h = h
All-right P (x ∷ xs) ys h = All-right P xs ys h.1

clear-last :
    (used : List Pollfd) (p : Pollfd)
    → length used < max_fd_size
    → set (table_of (used ++ p ∷ [])).poll_fds (length used) empty_pollfd ≡ (table_of used).poll_fds
clear-last used p h =
    ap (λ fds. set fds (length used) empty_pollfd) (table_of-snoc used p)
    ∙ set-append used p empty_pollfd _
    ∙ sym (table_of-free used h)

get_or-last :
    (used : List Pollfd) (p : Pollfd)
    → get_or (table_of (used ++ p ∷ [])).poll_fds (length used) empty_pollfd ≡ p
get_or-last used p =
    ap (λ fds. get_or fds (length used) empty_pollfd) (table_of-snoc used p)
    ∙ get_or-append used p empty_pollfd _

set-middle :
    (done todo : List Pollfd) (y v : Pollfd)
    → set (table_of (done ++ y ∷ todo)).poll_fds (length done) v
      ≡ (table_of (done ++ v ∷ todo)).poll_fds
set-middle done todo y v =
    ap (λ fds. set fds (length done) v) (append_assoc done (y ∷ todo) _)
    ∙ set-append done y v _
    ∙ sym (append_assoc done (v ∷ todo) _)
    ∙ ap (λ n. (done ++ v ∷ todo) ++ replicate n empty_pollfd)
        (omega (arith, length-append done (v ∷ todo), length-append done (y ∷ todo)))

get_or-middle :
    (done todo : List Pollfd) (y : Pollfd)
    → get_or (table_of (done ++ y ∷ todo)).poll_fds (length done) empty_pollfd ≡ y
get_or-middle done todo y =
    ap (λ fds. get_or fds (length done) empty_pollfd) (append_assoc done (y ∷ todo) _)
    ∙ get_or-append done y empty_pollfd _

-- The deleted entry is the last.
remove_at-last :
    (done : List Pollfd) (y : Pollfd)
    → length done < max_fd_size
    → remove_at (length done) (table_of (done ++ y ∷ [])) ≡ table_of done
unfolding remove_at
remove_at-last done y h = ground (arith, clear-last done y, length-append done (y ∷ []))

-- The steps of the removal of an entry that is not the last, one equation each.
remove_at-steps :
    (i last : ℕ) (t u : PollTable) (v : Pollfd) (moved : List Pollfd)
    → t.poll_fd_count ≡ suc last
    → i ≢ last
    → get_or t.poll_fds last empty_pollfd ≡ v
    → set t.poll_fds i v ≡ moved
    → set moved last empty_pollfd ≡ u.poll_fds
    → u.poll_fd_count ≡ last
    → remove_at i t ≡ u
unfolding remove_at
remove_at-steps i last t u v moved count ne got put cleared less =
    let e : t.poll_fd_count - 1 ≡ last = omega arith in ground (arith, e)

-- It is not: the last entry moves to its place.
remove_at-inner :
    (done init : List Pollfd) (y last : Pollfd)
    → length (done ++ y ∷ init) < max_fd_size
    → remove_at (length done) (table_of ((done ++ y ∷ init) ++ last ∷ []))
      ≡ table_of (done ++ last ∷ init)
remove_at-inner done init y last h =
    remove_at-steps (length done) (length (done ++ y ∷ init)) _ _ last
      (table_of ((done ++ last ∷ init) ++ last ∷ [])).poll_fds
      (omega (arith, length-append (done ++ y ∷ init) (last ∷ []))) (omega (arith, same_length y))
      (get_or-last (done ++ y ∷ init) last)
      (rw (append_assoc done (y ∷ init) (last ∷ []), append_assoc done (last ∷ init) (last ∷ []))
        (set-middle done (init ++ last ∷ []) y last))
      (ap (λ n. set (table_of ((done ++ last ∷ init) ++ last ∷ [])).poll_fds n empty_pollfd)
          (omega (arith, same_length y, same_length last))
        ∙ clear-last (done ++ last ∷ init) last (omega (arith, same_length y, same_length last)))
      (omega (arith, same_length y, same_length last))
  where
    same_length : (p : Pollfd) → length (done ++ p ∷ init) ≡ suc (length done + length init)
    same_length p = omega (arith, length-append done (p ∷ init))

-- What a deletion leaves: the table of the other entries.
pub record Deleted (sockfd : ℤ) (used : List Pollfd) (r : Bool × PollTable) : Type 0 where
  pub entry : Pollfd
  pub others : List Pollfd
  pub holds : entry.fd ≡ sockfd
  pub perm : Perm used (entry ∷ others)
  pub found : r.0 ≡ true
  pub table : IsTable others r.1

Deleted-snoc :
    (done init : List Pollfd) (last y : Pollfd) (sockfd : ℤ)
    → y.fd ≡ sockfd
    → IsTable (done ++ y ∷ (init ++ last ∷ [])) (table_of (done ++ y ∷ (init ++ last ∷ [])))
    → Deleted sockfd
        (done ++ y ∷ (init ++ last ∷ []))
        (true, remove_at (length done) (table_of (done ++ y ∷ (init ++ last ∷ []))))
Deleted-snoc done init last y sockfd e h = record {
  entry = y;
  others = done ++ last ∷ init;
  holds = e;
  perm =
      Perm.trans (perm_middle done (init ++ last ∷ []))
        (Perm.cons y (Perm.append_left done (rw append-nil at (perm_middle {a = last} init []))));
  found = refl;
  table = record {
    shape =
        rw (← append_assoc done (y ∷ init) (last ∷ []))
          (remove_at-inner done init y last (omega (arith, sizes, h.bounded)));
    bounded = omega (arith, sizes, h.bounded);
    live =
        All-append IsLive done (last ∷ init) (All-left IsLive done (y ∷ (init ++ last ∷ [])) h.live)
          ((All-right IsLive init (last ∷ []) tail.1).0, All-left IsLive init (last ∷ []) tail.1);
  };
}
  where
    sizes :
        (length (done ++ y ∷ (init ++ last ∷ [])) ≡ length done + length init + 2)
        × (length (done ++ y ∷ init) ≡ length done + length init + 1)
        × (length (done ++ last ∷ init) ≡ length done + length init + 1)
    sizes = omega (
      arith,
      length-append done (y ∷ (init ++ last ∷ [])),
      length-append init (last ∷ []),
      length-append done (y ∷ init),
      length-append done (last ∷ init),
    )

    tail : All IsLive (y ∷ (init ++ last ∷ []))
    tail = All-right IsLive done (y ∷ (init ++ last ∷ [])) h.live

Deleted-here :
    (done todo : List Pollfd) (y : Pollfd) (sockfd : ℤ)
    → y.fd ≡ sockfd
    → IsTable (done ++ y ∷ todo) (table_of (done ++ y ∷ todo))
    → Deleted sockfd
        (done ++ y ∷ todo)
        (true, remove_at (length done) (table_of (done ++ y ∷ todo)))
Deleted-here done [] y sockfd e h = record {
  entry = y;
  others = done;
  holds = e;
  perm = rw append-nil at (perm_middle {a = y} done []);
  found = refl;
  table = record {
    shape = remove_at-last done y (omega (arith, h.bounded, length-append done (y ∷ [])));
    bounded = omega (arith, h.bounded, length-append done (y ∷ []));
    live = All-left IsLive done (y ∷ []) h.live;
  };
}
Deleted-here done (x ∷ todo) y sockfd e h =
    let (init, last, split) = snoc-cases x todo in
    subst
      (λ ys.
        Deleted sockfd (done ++ y ∷ ys) (true, remove_at (length done) (table_of (done ++ y ∷ ys))))
      (sym split)
      (Deleted-snoc done init last y sockfd e
        (subst (λ ys. IsTable (done ++ y ∷ ys) (table_of (done ++ y ∷ ys))) split h))

-- Nothing in the list holds the socket.
abbrev pub IsAbsent : ℤ → List Pollfd → Type 0
IsAbsent sockfd = All (λ p. p.fd ≢ sockfd)

delete_from-lem :
    (done todo used : List Pollfd) (i : ℕ) (sockfd : ℤ)
    → used ≡ done ++ todo
    → i ≡ length done
    → IsAbsent sockfd done
    → IsTable used (table_of used)
    → (IsAbsent sockfd used
        × (delete_from (length todo) i sockfd (table_of used) ≡ (false, table_of used)))
      ⊎ Deleted sockfd used (delete_from (length todo) i sockfd (table_of used))
unfolding delete_from
delete_from-lem done [] used i sockfd eu ei absent h = inl (rw (eu, append-nil) absent, refl)
delete_from-lem done (y ∷ todo) used i sockfd eu ei absent h =
    let got : get_or (table_of used).poll_fds i empty_pollfd ≡ y =
      rw (eu, ei) (get_or-middle done todo y) in
    elim (ℤ-cases y.fd sockfd) [
      | inl e ↦
          rw (got, ==ℤ_true e)
            (inr (
              rw ei (
                subst (λ us. Deleted sockfd us (true, remove_at (length done) (table_of us)))
                  (sym eu)
                  (Deleted-here done todo y sockfd e
                    (subst (λ us. IsTable us (table_of us)) eu h)))))
      | inr ne ↦
          rw (got, ==ℤ_false ne)
            (delete_from-lem (done ++ y ∷ []) todo used (i + 1) sockfd
              (eu ∙ sym (append_assoc done (y ∷ []) todo))
              (omega (arith, length-append done (y ∷ [])))
              (All-append (λ p. p.fd ≢ sockfd) done (y ∷ []) absent (ne, tt)) h)
    ]

-- PollFDDelete on a well-formed table: if no live entry holds the socket it answers false and changes
-- nothing; otherwise it answers true, and the table is well-formed with exactly the other live
-- entries, in some order.
pub poll_fd_delete-IsTable :
    (sockfd : ℤ) (used : List Pollfd) (t : PollTable)
    → IsTable used t
    → (IsAbsent sockfd used × (poll_fd_delete sockfd t ≡ (false, t)))
      ⊎ Deleted sockfd used (poll_fd_delete sockfd t)
unfolding poll_fd_delete
poll_fd_delete-IsTable sockfd used t h = elim (ℤ-cases sockfd invalid_socket) [
  | inl e ↦ rw (==ℤ_true e) (inl (rw e h.live, refl))
  | inr ne ↦
      rw (==ℤ_false ne, h.shape)
        (delete_from-lem [] used used 0 sockfd refl refl tt
          (record { shape = refl; bounded = h.bounded; live = h.live }))
]
