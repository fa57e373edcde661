-- ===== src/Net/InStep.antt =====
-- The sockets that CNetworkThread polls are those that it reads: m_PollFds against m_ReadSockets.
pub mod Entries
pub mod Rounds
use libcastis_heartbeat.Prelude.{
  ℕ, zero, suc, ◌+◌, ◌-◌, ◌≤◌, ◌<◌, ◌≡◌, ◌≢◌, refl, ap, sym, subst, ◌∙◌, ℤ, pos, ◌==ℤ◌, ==ℤ_true,
  ==ℤ_false, ==ℤ_refl, ==ℤ_iff, ==_iff, ltb_ℤ, ℤ-cases, Bool, true, false, Bool-cases,
  if◌then◌else◌, List, [], ◌∷◌, ◌++◌, map, length, set, get_or, replicate, All, arith, ◌⊎◌, inl,
  inr, ◌==◌, pred_ℤ,
}
use libcastis_heartbeat.Poll.{
  Pollfd, PollBits, PollTable, invalid_socket, max_fd_size, empty_pollfd, poll_fd_add,
  poll_fd_delete, clear_table,
}
use libcastis_heartbeat.Poll.Table.{table_of, IsLive, IsTable, clear_table-IsTable, new_pollfd}
use libcastis_heartbeat.Poll.Bag.{
  twice, Bag, added_bag, occurrences-snoc, delete, add, in_bag, bag_of, occurrences,
}
use libcastis_heartbeat.Poll.Spec.{Agrees, add-Agrees, delete-Agrees}
use libcastis_heartbeat.Net.ReadSockets.{insert, erase}
use libcastis_heartbeat.Net.{
  add_read_socket, NetworkThread, add_read_socket, delete_read_socket, set_revents,
}
use libcastis_heartbeat.Net.Bounds.{cleared_table}

-- How often a socket is in m_ReadSockets.
abbrev pub copies : ℤ → List ℤ → ℕ
copies x [] = 0
copies x (y ∷ ys) = if x ==ℤ y then copies x ys + 1 else copies x ys

-- The table is well-formed, and polls each read socket once and nothing else.
pub record InStep (t : NetworkThread) : Type 0 where
  pub used : List Pollfd
  pub table : IsTable used t.table
  pub same : (x : ℤ) → occurrences x used ≡ copies x t.read_sockets
  pub once : (x : ℤ) → copies x t.read_sockets ≤ 1

copies-erase :
    (x k : ℤ) (xs : List ℤ)
    → copies x (erase k xs) ≡ (if x ==ℤ k then copies x xs - 1 else copies x xs)
unfolding erase
copies-erase x k [] = elim (Bool-cases (x ==ℤ k)) [ inl e ↦ rw e (omega arith) | inr e ↦ rw e ]
copies-erase x k (y ∷ ys) = elim (ℤ-cases k y) [
  | inl e ↦
      rw (e, ==ℤ_refl y) (elim (Bool-cases (x ==ℤ y)) [ inl f ↦ rw f (omega arith) | inr f ↦ rw f ])
  | inr ne ↦ rw (==ℤ_false ne) (elim (ℤ-cases x y) [
    | inl f ↦ rw (==ℤ_true f, copies-erase x k ys, ==ℤ_false (λ g. ne (sym g ∙ f)))
    | inr g ↦ rw (==ℤ_false g) (copies-erase x k ys)
  ])
]

copies-insert :
    (x k : ℤ) (xs : List ℤ)
    → copies k xs ≡ 0
    → copies x (insert k xs) ≡ (if x ==ℤ k then copies x xs + 1 else copies x xs)
unfolding insert
copies-insert x k [] h = refl
copies-insert x k (y ∷ ys) h = elim (Bool-cases (ltb_ℤ k y)) [
  | inl e ↦ rw e
  | inr e ↦ rw e (elim (ℤ-cases k y) [
    | inl f ↦ elim (one_more (copies k ys) (rw (==ℤ_true f) at h)) [ ]
    | inr f ↦
        rw (==ℤ_false f, copies-insert x k ys (rw (==ℤ_false f) at h))
          (twice (x ==ℤ y) (x ==ℤ k) (copies x ys))
  ])
]
  where
    one_more : (n : ℕ) → n + 1 ≡ 0 → ⊥
    one_more n e = omega arith

-- The table after a deletion, in terms of the sockets alone.
deleted-occurrences :
    (sockfd : ℤ) (used : List Pollfd) (t : PollTable) (h : IsTable used t) (x : ℤ)
    → occurrences x (delete-Agrees sockfd used t h).used
      ≡ (if x ==ℤ sockfd then occurrences x used - 1 else occurrences x used)
deleted-occurrences sockfd used t h x =
    ap (λ b. b.count x) (delete-Agrees sockfd used t h).bag
    ∙ elim (Bool-cases (occurrences sockfd used == 0)) [
      | inl e ↦ rw e (elim (ℤ-cases x sockfd) [
        | inl f ↦ rw (f, ==ℤ_refl sockfd) (gone ((==_iff (occurrences sockfd used) 0).0 e))
        | inr f ↦ rw (==ℤ_false f)
      ])
      | inr e ↦ rw e
    ]
  where
    gone : {n : ℕ} → n ≡ 0 → n ≡ n - 1
    gone e = omega arith

added-occurrences :
    (bits : PollBits) (sockfd : ℤ) (used : List Pollfd) (t : PollTable) (h : IsTable used t) (x : ℤ)
    → sockfd ≢ invalid_socket
    → length used < max_fd_size
    → occurrences x (add-Agrees bits sockfd used t h).used
      ≡ (if x ==ℤ sockfd then occurrences x used + 1 else occurrences x used)
added-occurrences bits sockfd used t h x valid room =
    ap (λ b. b.count x) (add-Agrees bits sockfd used t h).bag
    ∙ ap (λ (s : Bool × Bag). s.1.count x) (added_bag bits sockfd used valid room)
    ∙ occurrences-snoc x used (new_pollfd bits sockfd)

pub new-InStep : (t : NetworkThread) → InStep (record t { read_sockets = []; table = clear_table })
new-InStep t = record {
  used = [];
  table = clear_table-IsTable;
  same = λ x. refl;
  once = λ x. omega arith;
}

-- OnReadSocketError of CNetworkThread on the members: PollFDDelete, then DeleteReadSocket.
pub delete-InStep :
    (sockfd : ℤ) (t : NetworkThread)
    → InStep t
    → InStep (record t {
      read_sockets = erase sockfd t.read_sockets;
      table = (poll_fd_delete sockfd t.table).1;
    })
delete-InStep sockfd t h =
    let a = delete-Agrees sockfd h.used t.table h.table in
    record {
      used = a.used;
      table = a.table;
      same = λ x.
          deleted-occurrences sockfd h.used t.table h.table x
          ∙ rw (h.same x) (sym (copies-erase x sockfd t.read_sockets));
      once = λ x. rw (copies-erase x sockfd t.read_sockets) (less x (h.once x));
    }
  where
    less :
        (x : ℤ)
        → copies x t.read_sockets ≤ 1
        → (if x ==ℤ sockfd then copies x t.read_sockets - 1 else copies x t.read_sockets) ≤ 1
    less x le = ground arith

-- A socket that is not read yet, through AddReadSocket and PollFDAdd, when there is room.
add-InStep :
    (bits : PollBits) (sockfd : ℤ) (t : NetworkThread)
    → InStep t
    → sockfd ≢ invalid_socket
    → copies sockfd t.read_sockets ≡ 0
    → t.table.poll_fd_count < max_fd_size
    → InStep (record t {
      read_sockets = insert sockfd t.read_sockets;
      table = (poll_fd_add bits sockfd t.table).1;
    })
add-InStep bits sockfd t h valid fresh room =
    let a = add-Agrees bits sockfd h.used t.table h.table in
    record {
      used = a.used;
      table = a.table;
      same = λ x.
          added-occurrences bits sockfd h.used t.table h.table x valid has_room
          ∙ rw (h.same x) (sym (copies-insert x sockfd t.read_sockets fresh));
      once = λ x. rw (copies-insert x sockfd t.read_sockets fresh) (at_most x);
    }
  where
    has_room : length h.used < max_fd_size
    has_room = subst (λ (u : PollTable). u.poll_fd_count < max_fd_size) h.table.shape room

    at_most :
        (x : ℤ)
        → (if x ==ℤ sockfd then copies x t.read_sockets + 1 else copies x t.read_sockets) ≤ 1
    at_most x = elim (ℤ-cases x sockfd) [
      | inl e ↦ rw (e, ==ℤ_refl sockfd, fresh) (omega arith)
      | inr e ↦ rw (==ℤ_false e) (h.once x)
    ]

-- AddReadSocket and PollFDAdd together take a socket that is not NU_INVALID_SOCKET and not read yet, while
-- the table has room: both answer true, and the class still polls the sockets that it reads, each once,
-- and no others.
pub add_read_socket-InStep :
    (bits : PollBits) (sockfd : ℤ) (t : NetworkThread)
    → InStep t
    → sockfd ≢ invalid_socket
    → copies sockfd t.read_sockets ≡ 0
    → t.table.poll_fd_count < max_fd_size
    → ((add_read_socket sockfd t).0 ≡ true)
      × ((poll_fd_add bits sockfd (add_read_socket sockfd t).1.table).0 ≡ true)
      × InStep (record ((add_read_socket sockfd t).1) {
        table = (poll_fd_add bits sockfd (add_read_socket sockfd t).1.table).1;
      })
unfolding add_read_socket
add_read_socket-InStep bits sockfd t h valid fresh room =
    let has_room = subst (λ (u : PollTable). u.poll_fd_count < max_fd_size) h.table.shape room in
    rw (==ℤ_false valid) (
      refl,
      (add-Agrees bits sockfd h.used t.table h.table).result
          ∙ ap (λ (s : Bool × Bag). s.0) (added_bag bits sockfd h.used valid has_room),
      add-InStep bits sockfd t h valid fresh room,
    )
