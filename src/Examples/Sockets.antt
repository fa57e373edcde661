-- ===== src/Examples/Sockets.antt =====
-- The Windows branch, with the sets of sockets as functions.
use libcastis_heartbeat.Prelude.{
  ℕ, suc, ◌≡◌, ◌≢◌, ◌⊎◌, inl, inr, refl, ℤ, pos, ◌==ℤ◌, ==ℤ_iff, Bool, true, false, Bool-cases,
  if◌then◌else◌, [], ◌∷◌, none, some, arith,
}
use libcastis_heartbeat.Prelude.Machine.{pure, returns}
use libcastis_heartbeat.Thread.{ready}
use libcastis_heartbeat.Windows.Calls.{Win}
use libcastis_heartbeat.Windows.Net.{
  NetworkThread, NetVirtuals, new_network_thread, fd_set_add, fd_set_delete, disable_socket,
  on_read_socket_error, process_read_event, contains,
}
use libcastis_heartbeat.Windows.Net.Maximum.{
  IsMaximum, built, later, adds, deletes, Reach-IsMaximum,
}
use libcastis_heartbeat.Windows.Net.Rounds.{KeepsSockets, process_read_event-finishes}
use libcastis_heartbeat.Windows.Net.Erased.{process_read_event-erased}

abbrev pub Sockets : Type 0
Sockets = ℤ → Bool

abbrev with_socket : ℤ → Sockets → Sockets
with_socket b s a = if a ==ℤ b then true else s a

abbrev without_socket : ℤ → Sockets → Sockets
without_socket b s a = if a ==ℤ b then false else s a

pub isset-with : (a b : ℤ) (s : Sockets) → with_socket b s a ≡ true → (a ≡ b) ⊎ (s a ≡ true)
isset-with a b s h = elim (Bool-cases (a ==ℤ b)) [
  | inl e ↦ inl ((==ℤ_iff a b).0 e)
  | inr e ↦ inr (rw e at h)
]

pub isset-without : (a b : ℤ) (s : Sockets) → without_socket b s a ≡ true → (a ≢ b) × (s a ≡ true)
isset-without a b s h = elim (Bool-cases (a ==ℤ b)) [
  | inl e ↦ cc (rw e at h)
  | inr e ↦ (λ same. cc ((==ℤ_iff a b).1 same), rw e at h)
]

-- A system in which every call succeeds; the world counts the calls.
abbrev pub winsock : Win ℕ Sockets
winsock = record {
  closesocket = λ sock w. (pos 0, suc w);
  sleep = λ n w. suc w;
  select = λ n s sec usec w. (pos 1, s, suc w);
  errno = λ w. 0;
  eintr = 10004;
  create_semaphore = λ n m w. (true, suc w);
  wait_for_single_object = λ w. (0, suc w);
  wait_failed = 4294967295;
  wait_abandoned = 128;
  release_semaphore = λ w. (true, suc w);
  close_handle = λ w. (true, suc w);
  begin_thread = λ w. (1, suc w);
  ended = λ w. (false, w);
  fd_zero = λ a. false;
  fd_set = with_socket;
  fd_clr = without_socket;
  fd_isset = λ a s. s a;
  isset-zero = λ a. refl;
  isset-set = isset-with;
  isset-clr = isset-without;
}

abbrev fresh : NetworkThread Sockets
fresh = new_network_thread winsock (pos 100)

abbrev two : NetworkThread Sockets
two = (fd_set_add winsock (pos 5) (fd_set_add winsock (pos 3) fresh).1).1

Reach-IsMaximum_example : IsMaximum winsock (fd_set_delete winsock (pos 5) two).1
Reach-IsMaximum_example = Reach-IsMaximum winsock (pos 100) (fd_set_delete winsock (pos 5) two).1 (
    later (later (later (built refl) (adds (pos 3) refl)) (adds (pos 5) refl))
      (deletes (pos 5) refl))

-- An object that adds nothing to CNetworkThread, on sockets from which nothing comes.
pub record Plain : Type 0 where
  pub net : NetworkThread Sockets
  pub world : ℕ

abbrev parts : NetVirtuals Plain ℕ Sockets
parts = record {
  net = λ s. s.net;
  set_net = λ t s. record s { net = t };
  world = λ s. s.world;
  set_world = λ w s. record s { world = w };
  receive_int_message = λ sockfd. pure none;
  on_message = λ sockfd m. pure false;
  on_read_socket_error = λ sockfd. pure true;
}

abbrev plain : NetVirtuals Plain ℕ Sockets
plain = record parts { on_read_socket_error = on_read_socket_error winsock parts }

plain-base :
    (sockfd : ℤ) (s : Plain)
    → plain.on_read_socket_error sockfd s ≡ on_read_socket_error winsock plain sockfd s
unfolding on_read_socket_error disable_socket
plain-base sockfd s = refl

abbrev both_ready : Plain
both_ready = record {
  net = record {
    base = record { handle = 0; exit = false; state = ready };
    read_sockets = pos 3 ∷ pos 4 ∷ [];
    fd_set_all_read = λ a. true;
    fd_set_read = λ a. true;
    maximum_socket = pos 4;
    events_count = pos 2;
    timeout_millisec = pos 100;
  };
  world = 0;
}

other_socket : contains (pos 3) (pos 4 ∷ []) ≡ false
unfolding contains
other_socket = refl

process_read_event-erased_example : process_read_event winsock plain 10 both_ready ≡ none
process_read_event-erased_example =
    process_read_event-erased winsock plain (λ t s. refl) (λ w s. refl) plain-base (pos 3)
      (pos 4 ∷ []) 0 (λ e. cc) 9 both_ready both_ready refl other_socket refl refl refl refl

-- CNetworkThread's own ReceiveIntMessage and OnMessage with the OnReadSocketError of the responder.
parts-KeepsSockets : KeepsSockets parts (λ _. Unit)
parts-KeepsSockets = record {
  net-set_net = λ t s. refl;
  at_count = λ n s p. tt;
  on_receive = λ sockfd s p. returns (tt, refl);
  on_message = λ sockfd m s p. returns (tt, refl);
  on_error = λ sockfd s p. returns (tt, refl);
}

process_read_event-finishes_example :
    (s' : Plain) × (process_read_event winsock parts 2 both_ready ≡ some (true, s'))
    × (s'.net.read_sockets ≡ pos 3 ∷ pos 4 ∷ [])
    × Unit {0}
process_read_event-finishes_example =
    process_read_event-finishes winsock parts (λ _. Unit {0}) 2 both_ready parts-KeepsSockets tt
      ((refl, tt), (tt, tt)) (omega arith)
