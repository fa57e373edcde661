-- ===== src/Responser/Init.antt =====
-- What InitInstance does on each of its branches.
use libcastis_heartbeat.Prelude.{
  ◌<◌, ◌≡◌, ◌≢◌, refl, ap, ◌∙◌, ◌⊎◌, inl, inr, ℤ, negsuc, ◌==ℤ◌, ==ℤ_false, ==ℤ_iff, is_negative,
  Bool, true, false, Bool-cases, if◌then◌else◌, List, [], ◌∷◌, ◌++◌, length, Option, none, some,
  arith,
}
use libcastis_heartbeat.Prelude.Machine.{M, pure}
use libcastis_heartbeat.Wire.{Host}
use libcastis_heartbeat.Poll.{Pollfd, PollBits, PollTable, invalid_socket, max_fd_size, poll_fd_add}
use libcastis_heartbeat.Poll.Table.{IsTable, new_pollfd, poll_fd_add-IsTable}
use libcastis_heartbeat.Os.{Os}
use libcastis_heartbeat.Thread
use libcastis_heartbeat.Net.{add_read_socket}
use libcastis_heartbeat.Net.ReadSockets.{insert}
use libcastis_heartbeat.Responser.{
  Prog, nu_create_udp_socket, nu_set_reuse_addr, nu_bind, add_socket, add_poll_fd, set_up,
  init_instance,
}

module _ {World Addr : Type 0} (host : Host) (os : Os World Addr) (bits : PollBits) where
  -- The socket, and the world after each of the calls of the system.
  abbrev pub socket_of : Prog World Addr → ℤ
  socket_of s = (os.socket s.world).0

  abbrev pub created : Prog World Addr → World
  created s = (os.socket s.world).1

  abbrev pub reuse : Prog World Addr → ℤ × World
  reuse s = os.set_reuse_addr (socket_of s) 1 (created s)

  abbrev pub bound : Prog World Addr → ℤ × World
  bound s = os.bind (socket_of s) (host.htons s.port_number) (reuse s).1

  -- The object with the socket, in the world after the three calls.
  abbrev pub opened : Prog World Addr → PollTable → Prog World Addr
  opened s table = record {
    obj = record (s.obj) {
      net = record (s.net) {
        read_sockets = insert (socket_of s) s.net.read_sockets;
        table = table;
      };
    };
    world = (bound s).1;
  }

  abbrev pub at : World → Prog World Addr → Prog World Addr
  at w s = record s { world = w }

  -- The four ways out, each with what the calls answered.
  abbrev pub InitOutcome : List Pollfd → Prog World Addr → Option (Bool × Prog World Addr) → Type 0
  InitOutcome used s o =
      ((is_negative (socket_of s) ≡ true) × (o ≡ some (false, at (created s) s)))
      ⊎ ((is_negative (socket_of s) ≡ false)
          × ((reuse s).0 ≡ negsuc 0)
          × (o ≡ some (false, at (reuse s).1 s)))
      ⊎ ((is_negative (socket_of s) ≡ false)
          × ((reuse s).0 ≢ negsuc 0)
          × (is_negative (bound s).0 ≡ true)
          × (o ≡ some (false, at (bound s).1 s)))
      ⊎ ((is_negative (socket_of s) ≡ false)
          × ((reuse s).0 ≢ negsuc 0)
          × (is_negative (bound s).0 ≡ false)
          × (table : PollTable) × IsTable (used ++ new_pollfd bits (socket_of s) ∷ []) table
          × (o ≡ some (true, opened s table)))

  pub not_invalid : (sockfd : ℤ) → is_negative sockfd ≡ false → sockfd ≢ invalid_socket
  not_invalid sockfd h e = cc

  -- AddReadSocket and PollFDAdd take a socket that bind has taken.
  pub set_up-opened :
      (s : Prog World Addr)
      → is_negative (socket_of s) ≡ false
      → ((reuse s).0 ==ℤ negsuc 0) ≡ false
      → is_negative (bound s).0 ≡ false
      → set_up host os bits (socket_of s) (at (created s) s)
        ≡ some (
          (poll_fd_add bits (socket_of s) s.net.table).0,
          opened s (poll_fd_add bits (socket_of s) s.net.table).1,
        )
  unfolding set_up nu_set_reuse_addr nu_bind add_socket add_poll_fd add_read_socket
  set_up-opened s valid reused is_bound =
      rw (reused, is_bound, ==ℤ_false (not_invalid (socket_of s) valid))

  pub set_up-not_reused :
      (s : Prog World Addr)
      → ((reuse s).0 ==ℤ negsuc 0) ≡ true
      → set_up host os bits (socket_of s) (at (created s) s) ≡ some (false, at (reuse s).1 s)
  unfolding set_up nu_set_reuse_addr
  set_up-not_reused s h = rw h

  pub set_up-not_bound :
      (s : Prog World Addr)
      → ((reuse s).0 ==ℤ negsuc 0) ≡ false
      → is_negative (bound s).0 ≡ true
      → set_up host os bits (socket_of s) (at (created s) s) ≡ some (false, at (bound s).1 s)
  unfolding set_up nu_set_reuse_addr nu_bind
  set_up-not_bound s h k = rw (h, k)

  -- What follows the socket call.
  abbrev rest : Option ℤ → M (Prog World Addr) Bool
  rest sock = elim sock [ none ↦ pure false | some sockfd ↦ set_up host os bits sockfd ]

  init-head :
      (s : Prog World Addr)
      → init_instance host os bits s
        ≡ rest (if is_negative (socket_of s) then none else some (socket_of s)) (at (created s) s)
  unfolding init_instance nu_create_udp_socket Thread.init_instance
  init-head s = refl

  pub init-steps :
      (s : Prog World Addr)
      → is_negative (socket_of s) ≡ false
      → init_instance host os bits s ≡ set_up host os bits (socket_of s) (at (created s) s)
  init-steps s h = init-head s ∙ rw h

  pub init-no_socket :
      (s : Prog World Addr)
      → is_negative (socket_of s) ≡ true
      → init_instance host os bits s ≡ some (false, at (created s) s)
  init-no_socket s h = init-head s ∙ rw h

  -- In a table with room, PollFDAdd takes a valid socket.
  taken :
      (sockfd : ℤ) (used : List Pollfd) (t : PollTable)
      → IsTable used t
      → length used < max_fd_size
      → sockfd ≢ invalid_socket
      → ((poll_fd_add bits sockfd t).0 ≡ true)
        × IsTable (used ++ new_pollfd bits sockfd ∷ []) (poll_fd_add bits sockfd t).1
  taken sockfd used t h room valid = elim (poll_fd_add-IsTable bits sockfd used t h) [
    | inl (inl e, same) ↦ absurd (valid e)
    | inl (inr full, same) ↦ absurd (omega arith)
    | inr (_, _, added, is_table) ↦ (added, is_table)
  ]

  other : (r : ℤ) → (r ==ℤ negsuc 0) ≡ false → r ≢ negsuc 0
  other r h e = cc (h, (==ℤ_iff r (negsuc 0)).1 e)

  -- InitInstance, on a well-formed table with room, fails only because socket, setsockopt or bind does,
  -- and then the object is as before and nothing was called after the failed call: a socket that was
  -- created is neither closed nor recorded. It answers true exactly if the three calls succeed, and then
  -- the new socket is a read socket and the last live entry of the table, which is well-formed.
  pub init_instance-branches :
      (used : List Pollfd) (s : Prog World Addr)
      → IsTable used s.net.table
      → length used < max_fd_size
      → InitOutcome used s (init_instance host os bits s)
  init_instance-branches used s h room = elim (Bool-cases (is_negative (socket_of s))) [
    | inl e ↦ inl (e, init-no_socket s e)
    | inr valid ↦ elim (Bool-cases ((reuse s).0 ==ℤ negsuc 0)) [
      | inl e ↦ inr (
          inl (
            valid,
            (==ℤ_iff (reuse s).0 (negsuc 0)).0 e,
            init-steps s valid ∙ set_up-not_reused s e,
          ))
      | inr reused ↦ elim (Bool-cases (is_negative (bound s).0)) [
        | inl e ↦ inr (
            inr (
              inl (
                valid,
                other (reuse s).0 reused,
                e,
                init-steps s valid ∙ set_up-not_bound s reused e,
              )))
        | inr is_bound ↦
            let (added, is_table) =
              taken (socket_of s) used s.net.table h room (not_invalid (socket_of s) valid) in
            inr (
              inr (
                inr (
                  valid,
                  other (reuse s).0 reused,
                  is_bound,
                  (poll_fd_add bits (socket_of s) s.net.table).1,
                  is_table,
                  init-steps s valid
                      ∙ set_up-opened s valid reused is_bound
                      ∙ ap
                          (λ (b : Bool).
                            some (b, opened s (poll_fd_add bits (socket_of s) s.net.table).1))
                          added,
                )))
      ]
    ]
  ]
