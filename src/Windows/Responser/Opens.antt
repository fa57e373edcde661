-- ===== src/Windows/Responser/Opens.antt =====
-- What InitInstance on Windows does to the open sockets.
use libcastis_heartbeat.Prelude.{
  ℕ, ◌≡◌, ◌≢◌, refl, sym, subst, Bool, Bool-cases, inl, inr, false, ℤ, negsuc, ◌==ℤ◌, ==ℤ_false,
  is_negative, if◌then◌else◌, List, Option, none, some,
}
use libcastis_heartbeat.Prelude.Machine.{M, pure, Post, returns}
use libcastis_heartbeat.Wire.{Host}
use libcastis_heartbeat.Poll.{invalid_socket}
use libcastis_heartbeat.Os.{Sockets}
use libcastis_heartbeat.Thread
use libcastis_heartbeat.Responser.{nu_create_udp_socket, nu_set_reuse_addr, nu_bind}
use libcastis_heartbeat.Responser.Ledger.{Books, SocketsLedger, Accounted}
use libcastis_heartbeat.Responser.Opens.{after_no_socket, after_reuse, after_bind, after_all}
use libcastis_heartbeat.Windows.Calls.{Win}
use libcastis_heartbeat.Windows.Net.{NetworkThread, add_read_socket, fd_set_add}
use libcastis_heartbeat.Windows.Responser.{Prog, set_up, init_instance}

module _ {World FdSet Addr : Type 0} (host : Host) (sockets : Sockets World Addr)
    (win : Win World FdSet) (b : Books World) (ledger : SocketsLedger sockets b) where
  -- The object accounts for the open descriptors.
  abbrev pub Accounts : Prog FdSet World Addr → Type 0
  Accounts s = Accounted b s.net.read_sockets s.world

  abbrev created : Prog FdSet World Addr → Prog FdSet World Addr
  created s = record s { world = (sockets.socket s.world).1 }

  -- What follows the socket call.
  abbrev rest : Option ℤ → M (Prog FdSet World Addr) Bool
  rest sock = elim sock [ none ↦ pure false | some sockfd ↦ set_up host sockets win sockfd ]

  abbrev socket_of : Prog FdSet World Addr → ℤ
  socket_of s = (sockets.socket s.world).0

  abbrev reuse : Prog FdSet World Addr → ℤ × World
  reuse s = sockets.set_reuse_addr (socket_of s) 1 (sockets.socket s.world).1

  abbrev bound : Prog FdSet World Addr → ℤ × World
  bound s = sockets.bind (socket_of s) (host.htons s.port_number) (reuse s).1

  init-head :
      (s : Prog FdSet World Addr)
      → init_instance host sockets win s
        ≡ rest (if is_negative (socket_of s) then none else some (socket_of s)) (created s)
  unfolding init_instance nu_create_udp_socket Thread.init_instance
  init-head s = refl

  not_invalid : (sockfd : ℤ) → is_negative sockfd ≡ false → sockfd ≢ invalid_socket
  not_invalid sockfd h e = cc

  fd_set_add-reads :
      (sockfd : ℤ) (t : NetworkThread FdSet)
      → (fd_set_add win sockfd t).1.read_sockets ≡ t.read_sockets
  unfolding fd_set_add
  fd_set_add-reads sockfd t = elim (Bool-cases (sockfd ==ℤ invalid_socket)) [
    | inl e ↦ rw e refl
    | inr e ↦ rw e refl
  ]

  set_up-Accounts :
      (s : Prog FdSet World Addr)
      → Accounts s
      → is_negative (socket_of s) ≡ false
      → Post (Unit {0}) (λ _ s'. Accounts s') (set_up host sockets win (socket_of s) (created s))
  unfolding set_up nu_set_reuse_addr nu_bind add_read_socket
  set_up-Accounts s h valid = elim (Bool-cases ((reuse s).0 ==ℤ negsuc 0)) [
    | inl e ↦ rw e (returns (after_reuse sockets b ledger port l s.world h valid e))
    | inr reused ↦ elim (Bool-cases (is_negative (bound s).0)) [
      | inl e ↦
          rw (reused, e) (returns (after_bind sockets b ledger port l s.world h valid reused e))
      | inr e ↦
          rw (reused, e, ==ℤ_false (not_invalid (socket_of s) valid))
            (returns (
              subst (λ l. Accounted b l (bound s).1) (sym (fd_set_add-reads (socket_of s) _))
                (after_all sockets b ledger port l s.world h valid reused e)))
    ]
  ]
    where
      port : ℕ
      port = host.htons s.port_number

      l : List ℤ
      l = s.net.read_sockets

  -- InitInstance leaves open, and unrecorded, a socket that setsockopt or bind has failed on, and no other.
  pub init_instance-Accounts :
      (s : Prog FdSet World Addr)
      → Accounts s
      → Post (Unit {0}) (λ _ s'. Accounts s') (init_instance host sockets win s)
  init_instance-Accounts s h = elim (Bool-cases (is_negative (socket_of s))) [
    | inl e ↦
        rw (init-head s, e)
          (returns (
            after_no_socket sockets b ledger (host.htons s.port_number) s.net.read_sockets s.world h
              e))
    | inr valid ↦ rw (init-head s, valid) (set_up-Accounts s h valid)
  ]
