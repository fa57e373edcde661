-- ===== src/Net/Invariant.antt =====
-- What Run of CNetworkThread keeps: an invariant of the object that each of its steps keeps.
use libcastis_heartbeat.Prelude.{
  ℤ, pos, ◌≡◌, refl, Bool, true, false, not, ◌==◌, is_negative, is_positive, ◌&&◌, if◌then◌else◌,
  List, take, ℕ,
}
use libcastis_heartbeat.Prelude.Machine.{M, pure, when, ◌>>=◌, ◌>>◌, Post, returns, Post->>=}
use libcastis_heartbeat.Poll.{PollBits}
use libcastis_heartbeat.Thread.{Thread, end_thread, set_exit, read_exit}
use libcastis_heartbeat.Os.{Os}
use libcastis_heartbeat.Net.Parts.{served, waited_for}
use libcastis_heartbeat.Net.{
  NetworkThread, NetVirtuals, system_, update_net, thread_access, poll_table, set_revents, msleep,
  wait_network_event, process_read_event, run,
}
use libcastis_heartbeat.Net.Bounds.{Bounded, process_read_event-Keeping}

module _ {S World Addr : Type 0} (os : Os World Addr) (v : NetVirtuals S World) where
  -- What poll answers for the counted entries.
  abbrev pub poll_answer : S → ℤ × List ℕ × World
  poll_answer s =
      os.poll (take (v.net s).table.poll_fd_count (v.net s).table.poll_fds)
        (v.net s).timeout_millisec (v.world s)

  -- The object with the results that poll has written over the entries.
  abbrev pub polled : S → S
  polled s =
      let s₁ = v.set_world (poll_answer s).2 s in
      let t = v.net s₁ in
      v.set_net
        (record t {
          table = record (t.table) { poll_fds = set_revents (poll_answer s).1 t.table.poll_fds };
        })
        s₁

-- The steps of a Run keep `Inv`.
pub record Kept {S World Addr : Type 0} (F : Type 0) (os : Os World Addr) (v : NetVirtuals S World)
    (Inv : S → Type 0) : Type 0 where
  pub bounded : Bounded F v Inv
  pub at_base : (b : Thread) (s : S) → Inv s → Inv (v.set_net (record (v.net s) { base = b }) s)
  pub at_events :
      (n : ℤ) (s : S) → Inv s → Inv (v.set_net (record (v.net s) { events_count = n }) s)
  pub at_poll : (s : S) → Inv s → Inv (polled os v s)
  pub at_sleep : (n : ℤ) (s : S) → Inv s → Inv (v.set_world (msleep os n (v.world s)) s)
  pub at_others : (s : S) → Inv s → Inv (v.set_world (os.ended (v.world s)).1 s)

module _ {S World Addr : Type 0} (F : Type 0) (os : Os World Addr) (bits : PollBits)
    (v : NetVirtuals S World) (Inv : S → Type 0) (h : Kept F os v Inv) where
  abbrev Keeping : {A : Type 0} → M S A → Type 0
  Keeping m = (s : S) → Inv s → Post F (λ _ s'. Inv s') (m s)

  Keeping-when : (b : Bool) (m : M S (Unit {0})) → Keeping m → Keeping (when b m)
  Keeping-when true m k s p = k s p
  Keeping-when false m k s p = returns p

  read_exit-Keeping : Keeping (read_exit (thread_access os bits v))
  unfolding read_exit end_thread set_exit
  read_exit-Keeping s p =
      Post->>= (thread_access os bits v).others _ s (returns (h.at_others s p)) λ called s₁ q.
        Post->>= (when called (end_thread (thread_access os bits v))) _ s₁
          (Keeping-when called _ (λ s r. returns (h.at_base _ s r)) s₁ q)
          λ _ s₂ r. returns {a = (v.net s₂).base.exit} r

  after_poll :
      (t : NetworkThread) (count : ℤ) (failed interrupted : Bool)
      → Keeping (
          if failed
          then (if interrupted
              then (do update_net os bits v (λ t. record t { events_count = pos 0 }); pure false)
              else (do
                system_ os bits v (msleep os t.timeout_millisec)
                update_net os bits v (λ t. record t { events_count = count })
                pure true))
          else (do update_net os bits v (λ t. record t { events_count = count }); pure true))
  after_poll t count true true s p = returns (h.at_events _ s p)
  after_poll t count true false s p = returns (h.at_events _ (v.set_world _ s) (h.at_sleep _ s p))
  after_poll t count false interrupted s p = returns (h.at_events _ s p)

  wait-Keeping : Keeping (wait_network_event os bits v)
  unfolding wait_network_event poll_table
  wait-Keeping s p =
      after_poll (v.net s) (poll_answer os v s).0 (is_negative (poll_answer os v s).0)
        (os.errno (v.world (polled os v s)) == os.eintr) (polled os v s) (h.at_poll s p)

  processed-Keeping : Keeping (process_read_event os bits v >>= λ _. pure tt)
  processed-Keeping s p =
      Post->>= (process_read_event os bits v) _ s
        (process_read_event-Keeping F os bits v Inv h.bounded s p) λ _ s₁ q. returns q.1

  served-Keeping : Keeping (served os bits v)
  served-Keeping s p =
      Post->>= (read_exit (thread_access os bits v)) _ s (read_exit-Keeping s p) λ ending s₁ q.
        Keeping-when (not ending && is_positive (v.net s₁).events_count) _ processed-Keeping s₁ q

  waited_for-Keeping : Keeping (waited_for os bits v)
  waited_for-Keeping s p =
      Post->>= (wait_network_event os bits v) _ s (wait-Keeping s p)
        λ waited s₁ q. Keeping-when waited (served os bits v) served-Keeping s₁ q

  pub run-Keeping : (s : S) → Inv s → Post F (λ b s'. (b ≡ true) × Inv s') (run os bits v s)
  unfolding run
  run-Keeping s p =
      Post->>= (read_exit (thread_access os bits v)) _ s (read_exit-Keeping s p) λ ending s₁ q.
        Post->>= (when (not ending) (waited_for os bits v)) _ s₁
          (Keeping-when (not ending) (waited_for os bits v) waited_for-Keeping s₁ q)
          λ _ s₂ r. returns (refl, r)
