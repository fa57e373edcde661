-- ===== src/Net/Bounds.antt =====
-- ProcessReadEvent stays inside the array of the poll table, and returns.
use libcastis_heartbeat.Prelude.{
  ℕ, zero, suc, ◌+◌, ◌≤◌, ◌≡◌, refl, ℤ, Bool, true, false, not, ltb, if◌then◌else◌, Option, none,
  some, get_or, set, pred_ℤ, arith,
}
use libcastis_heartbeat.Prelude.Machine.{M, pure, when, ◌>>=◌, Post, returns, Post->>=}
use libcastis_heartbeat.Poll.{PollBits, PollTable, empty_pollfd, max_fd_size}
use libcastis_heartbeat.Os.{Os}
use libcastis_heartbeat.Net.{
  NetVirtuals, set_table, fd_at, dispatch_message, clear_revents, serve_entry, count_event,
  is_ready, process_from, process_read_event,
}

-- The table once the result of the entry `i` is cleared.
abbrev pub cleared_table : ℕ → PollTable → PollTable
cleared_table i t = record t {
  poll_fds = set t.poll_fds i (record (get_or t.poll_fds i empty_pollfd) { revents = 0 });
}

-- An invariant that bounds the count of the entries, and that a derived class keeps.
pub record Bounded {S World : Type 0} (F : Type 0) (v : NetVirtuals S World) (Inv : S → Type 0)
    : Type 0 where
  pub fits : (s : S) → Inv s → (v.net s).table.poll_fd_count ≤ max_fd_size
  pub at_clear :
      (i : ℕ) (s : S)
      → Inv s
      → Inv (v.set_net (record (v.net s) { table = cleared_table i (v.net s).table }) s)
  pub at_count :
      (s : S)
      → Inv s
      → Inv (v.set_net (record (v.net s) { events_count = pred_ℤ (v.net s).events_count }) s)
  pub on_receive :
      (sockfd : ℤ) (s : S) → Inv s → Post F (λ _ s'. Inv s') (v.receive_int_message sockfd s)
  pub on_message :
      (sockfd : ℤ) (m : ℕ) (s : S) → Inv s → Post F (λ _ s'. Inv s') (v.on_message sockfd m s)
  pub on_error :
      (sockfd : ℤ) (s : S) → Inv s → Post F (λ _ s'. Inv s') (v.on_read_socket_error sockfd s)

module _ {S World Addr : Type 0} (F : Type 0) (os : Os World Addr) (bits : PollBits)
    (v : NetVirtuals S World) (Inv : S → Type 0) (h : Bounded F v Inv) where
  abbrev Keeping : {A : Type 0} → M S A → Type 0
  Keeping m = (s : S) → Inv s → Post F (λ _ s'. Inv s') (m s)

  Keeping-when : (b : Bool) (m : M S (Unit {0})) → Keeping m → Keeping (when b m)
  Keeping-when true m k s p = k s p
  Keeping-when false m k s p = returns p

  error-Keeping : (sockfd : ℤ) → Keeping (v.on_read_socket_error sockfd >>= λ _. pure tt)
  error-Keeping sockfd s p =
      Post->>= (v.on_read_socket_error sockfd) _ s (h.on_error sockfd s p) λ _ s₁ q. returns q

  dispatch_message-Keeping : (i : ℕ) (m : Option ℕ) → Keeping (dispatch_message os bits v i m)
  unfolding dispatch_message fd_at
  dispatch_message-Keeping i none s p = error-Keeping _ s p
  dispatch_message-Keeping i (some m) s p =
      Post->>= (v.on_message _ m) _ s (h.on_message _ m s p)
        λ handled s₁ q. Keeping-when (not handled) _ (error-Keeping _) s₁ q

  serve_entry-Keeping : (i : ℕ) → Keeping (serve_entry os bits v i)
  unfolding serve_entry fd_at clear_revents
  serve_entry-Keeping i s p =
      Post->>= (set_table os bits v (clear_revents os bits v i)) _ s (returns (h.at_clear i s p))
        λ _ s₁ q.
          Post->>= (v.receive_int_message (get_or (v.net s₁).table.poll_fds i empty_pollfd).fd) _ s₁
            (h.on_receive _ s₁ q) λ m s₂ r. dispatch_message-Keeping i m s₂ r

  count_event-Keeping : Keeping (count_event os bits v)
  unfolding count_event
  count_event-Keeping s p = returns (h.at_count s p)

  entry-Keeping :
      (b : Bool) (i : ℕ) (next : M S (Unit {0}))
      → Keeping next
      → Keeping (λ s.
        if b
        then (serve_entry os bits v i >>= λ _.
              count_event os bits v >>= λ last. if last then pure tt else next)
            s
        else next s)
  entry-Keeping false i next k s p = k s p
  entry-Keeping true i next k s p =
      Post->>= (serve_entry os bits v i) _ s (serve_entry-Keeping i s p) λ _ s₁ q.
        Post->>= (count_event os bits v) _ s₁ (count_event-Keeping s₁ q) λ last s₂ r. ends last s₂ r
    where
      ends : (last : Bool) → Keeping (if last then pure tt else next)
      ends true s p = returns p
      ends false s p = k s p

  inside-Keeping :
      (b : Bool) (m : M S (Unit {0})) → Keeping m → Keeping (λ s. if b then m s else some (tt, s))
  inside-Keeping true m k s p = k s p
  inside-Keeping false m k s p = returns p

  -- The rounds that are left reach the end of the array.
  process_from-Keeping :
      (rounds i : ℕ) → rounds + i ≡ max_fd_size → Keeping (process_from os bits v rounds i)
  unfolding process_from
  process_from-Keeping zero i e s p =
      let fits : (v.net s).table.poll_fd_count ≤ max_fd_size = h.fits s p in
      rw (past i (v.net s).table.poll_fd_count (omega arith)) (returns p)
    where
      past : (i n : ℕ) → n ≤ i → ltb i n ≡ false
      past i n le = ground arith
  process_from-Keeping (suc rounds) i e s p =
      inside-Keeping (ltb i (v.net s).table.poll_fd_count) _
        (entry-Keeping (is_ready bits (get_or (v.net s).table.poll_fds i empty_pollfd)) i
          (process_from os bits v rounds (i + 1))
          (process_from-Keeping rounds (i + 1) (omega arith)))
        s p

  pub process_read_event-Keeping :
      (s : S) → Inv s → Post F (λ b s'. (b ≡ true) × Inv s') (process_read_event os bits v s)
  unfolding process_read_event
  process_read_event-Keeping s p =
      Post->>= (process_from os bits v max_fd_size 0) _ s
        (process_from-Keeping max_fd_size 0 (omega arith) s p) λ _ s₁ q. returns (refl, q)
