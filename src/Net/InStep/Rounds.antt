-- ===== src/Net/InStep/Rounds.antt =====
-- A whole Run of CNetworkThread keeps the polled sockets and the read sockets the same.
use libcastis_heartbeat.Prelude.{
  ℕ, ◌≤◌, ◌≡◌, ap, sym, ◌∙◌, subst, ℤ, ◌==ℤ◌, Bool, true, Bool-cases, inl, inr, List, length, take,
  length-take, some, arith,
}
use libcastis_heartbeat.Prelude.Machine.{M, Post, returns, Post-mono, Post-total}
use libcastis_heartbeat.Poll.{Pollfd, PollBits, invalid_socket, max_fd_size, poll_fd_delete}
use libcastis_heartbeat.Thread.{Thread}
use libcastis_heartbeat.Os.{Os}
use libcastis_heartbeat.Net.ReadSockets.{erase}
use libcastis_heartbeat.Net.{
  NetworkThread, NetVirtuals, nu_disconnect, delete_read_socket, disable_socket,
  on_read_socket_error, run,
}
use libcastis_heartbeat.Net.Bounds.{Bounded}
use libcastis_heartbeat.Net.Invariant.{poll_answer, polled, Kept, run-Keeping}
use libcastis_heartbeat.Net.InStep.{InStep, delete-InStep}
use libcastis_heartbeat.Net.InStep.Entries.{cleared_table-InStep, set_revents-InStep}

-- A class that receives and handles messages without touching the sockets, and leaves what happens to a
-- broken socket to CNetworkThread, on a system whose poll answers at most one result for each entry.
pub record LeavesSockets {S World Addr : Type 0} (os : Os World Addr) (bits : PollBits)
    (v : NetVirtuals S World) : Type 0 where
  pub net-set_net : (t : NetworkThread) (s : S) → v.net (v.set_net t s) ≡ t
  pub net-set_world : (w : World) (s : S) → v.net (v.set_world w s) ≡ v.net s
  pub on_receive :
      (sockfd : ℤ) (s : S) → Post ⊥ (λ _ s'. v.net s' ≡ v.net s) (v.receive_int_message sockfd s)
  pub on_message :
      (sockfd : ℤ) (m : ℕ) (s : S) → Post ⊥ (λ _ s'. v.net s' ≡ v.net s) (v.on_message sockfd m s)
  pub on_error :
      (sockfd : ℤ) (s : S)
      → v.on_read_socket_error sockfd s ≡ on_read_socket_error os bits v sockfd s
  pub poll-length :
      (fds : List Pollfd) (timeout : ℤ) (w : World) → length (os.poll fds timeout w).1 ≤ length fds

module _ {S World Addr : Type 0} (os : Os World Addr) (bits : PollBits) (v : NetVirtuals S World)
    (laws : LeavesSockets os bits v) where
  abbrev Agreed : S → Type 0
  Agreed s = InStep (v.net s)

  abbrev Keeping : {A : Type 0} → M S A → Type 0
  Keeping m = (s : S) → Agreed s → Post ⊥ (λ _ s'. Agreed s') (m s)

  at_net : (t : NetworkThread) (s : S) → InStep t → Agreed (v.set_net t s)
  at_net t s h = subst InStep (sym (laws.net-set_net t s)) h

  at_world : (w : World) (s : S) → Agreed s → Agreed (v.set_world w s)
  at_world w s h = subst InStep (sym (laws.net-set_world w s)) h

  -- The other members.
  at_base : (b : Thread) (s : S) → Agreed s → Agreed (v.set_net (record (v.net s) { base = b }) s)
  at_base b s h =
      at_net _ s (record { used = h.used; table = h.table; same = h.same; once = h.once })

  at_count :
      (n : ℤ) (s : S) → Agreed s → Agreed (v.set_net (record (v.net s) { events_count = n }) s)
  at_count n s h =
      at_net _ s (record { used = h.used; table = h.table; same = h.same; once = h.once })

  on_error-Keeping : (sockfd : ℤ) → Keeping (on_read_socket_error os bits v sockfd)
  unfolding on_read_socket_error disable_socket delete_read_socket
  on_error-Keeping sockfd s p = elim (Bool-cases (sockfd ==ℤ invalid_socket)) [
    | inl e ↦ rw e (returns p)
    | inr e ↦ rw e (
        returns (
          at_net _ closed (
            subst (λ t. InStep (record t { read_sockets = erase sockfd t.read_sockets }))
              (sym unpolled) (delete-InStep sockfd (v.net s) p))))
  ]
    where
      -- Out of the table, and closed.
      without : NetworkThread
      without = record (v.net s) { table = (poll_fd_delete sockfd (v.net s).table).1 }

      closed : S
      closed =
          v.set_world (nu_disconnect os sockfd (v.world (v.set_net without s))).1
            (v.set_net without s)

      unpolled : v.net closed ≡ without
      unpolled = laws.net-set_world _ (v.set_net without s) ∙ laws.net-set_net without s

  bounded : Bounded ⊥ v Agreed
  bounded = record {
    fits = λ s p.
        subst (λ n. n ≤ max_fd_size) (sym (ap (λ u. u.poll_fd_count) p.table.shape))
          p.table.bounded;
    at_clear = λ i s p. at_net _ s (cleared_table-InStep i (v.net s) p);
    at_count = λ s p. at_count _ s p;
    on_receive =
        λ sockfd s p. Post-mono (laws.on_receive sockfd s) λ _ s' e. subst InStep (sym e) p;
    on_message =
        λ sockfd m s p. Post-mono (laws.on_message sockfd m s) λ _ s' e. subst InStep (sym e) p;
    on_error = λ sockfd s p. rw (laws.on_error sockfd s) (on_error-Keeping sockfd s p);
  }

  -- poll has a result for no more than the counted entries.
  few : (s : S) → length (poll_answer os v s).1 ≤ (v.net s).table.poll_fd_count
  few s =
      let entries = take (v.net s).table.poll_fd_count (v.net s).table.poll_fds in
      omega (
        arith,
        laws.poll-length entries (v.net s).timeout_millisec (v.world s),
        length-take (v.net s).table.poll_fd_count (v.net s).table.poll_fds,
      )

  polled-Agreed : (s : S) → Agreed s → Agreed (polled os v s)
  polled-Agreed s p =
      let s₁ = v.set_world (poll_answer os v s).2 s in
      at_net _ s₁ (
        set_revents-InStep (poll_answer os v s).1 (v.net s₁) (at_world _ s p) (
          subst (λ (t : NetworkThread). length (poll_answer os v s).1 ≤ t.table.poll_fd_count)
            (sym (laws.net-set_world _ s)) (few s)))

  kept : Kept ⊥ os v Agreed
  kept = record {
    bounded = bounded;
    at_base = at_base;
    at_events = at_count;
    at_poll = polled-Agreed;
    at_sleep = λ n s p. at_world _ s p;
    at_others = λ s p. at_world _ s p;
  }

  -- The class polls the sockets that it reads, each once, and no others, and Run keeps it so: if it holds
  -- before Run, then Run returns true and it holds after, on every outcome of the system's calls and through
  -- any number of sockets whose receive fails, which leave both m_PollFds and m_ReadSockets. It is assumed
  -- that ReceiveIntMessage and OnMessage return without touching the network thread, that OnReadSocketError
  -- is the one of CNetworkThread, and that poll writes no more results than it was given entries.
  pub run-InStep :
      (s : S)
      → InStep (v.net s)
      → (s' : S) × (run os bits v s ≡ some (true, s')) × InStep (v.net s')
  run-InStep s p =
      let (b, s', e, r) = Post-total (run-Keeping ⊥ os bits v Agreed kept s p) in
      (s', e ∙ ap (λ (b : Bool). some (b, s')) r.0, r.1)
