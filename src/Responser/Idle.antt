-- ===== src/Responser/Idle.antt =====
-- A Run of the responder that finds nothing to serve.
use libcastis_heartbeat.Prelude.{
  ℕ, ◌≡◌, ◌∙◌, ℤ, pos, negsuc, is_positive, ◌==◌, ==_refl, true, false, List, [], ◌∷◌, some,
}
use libcastis_heartbeat.Prelude.Machine.{>>=-step}
use libcastis_heartbeat.Wire.{Host}
use libcastis_heartbeat.Poll.Table.{new_pollfd}
use libcastis_heartbeat.Poll.{Pollfd, PollBits}
use libcastis_heartbeat.Thread.{read_exit}
use libcastis_heartbeat.Os.{Os}
use libcastis_heartbeat.Net.Parts.{waited_for}
use libcastis_heartbeat.Net.{
  thread_access, poll_table, set_revents, wait_network_event, run, msleep,
}
use libcastis_heartbeat.Responser.{Responser, Prog, net_virtuals}
use libcastis_heartbeat.Responser.Answers.{listening, read_exit-lem}

-- The object with what the last datagram has left.
abbrev pub last : {Addr : Type 0} → Responser Addr → Addr → List ℕ → Responser Addr
last r a b = record r { sa_recv = a; recv_buf = b }

-- The object between two rounds, when `n` is the count of events of the last.
abbrev pub polling :
    {World Addr : Type 0}
    → PollBits
    → ℤ
    → List Pollfd
    → ℤ
    → Responser Addr
    → World
    → Prog World Addr
polling bits fd frees n r w = listening (new_pollfd bits fd) frees n r w

module _ {World Addr : Type 0} (host : Host) (os : Os World Addr) (bits : PollBits) where
  module _ (fd : ℤ) (frees : List Pollfd) (n : ℤ) (r : Responser Addr)
      (on : r.net.base.exit ≡ false) where
    -- The three ways for poll to count no event.
    pub wait-quiet :
        (w w₁ : World)
        → os.poll (new_pollfd bits fd ∷ []) r.net.timeout_millisec w ≡ (pos 0, 0 ∷ [], w₁)
        → wait_network_event os bits (net_virtuals host os bits) (polling bits fd frees n r w)
          ≡ some (true, polling bits fd frees (pos 0) r w₁)
    unfolding wait_network_event poll_table set_revents
    wait-quiet w w₁ e = rw e

    pub wait-interrupted :
        (w w₁ : World)
        → os.poll (new_pollfd bits fd ∷ []) r.net.timeout_millisec w ≡ (negsuc 0, 0 ∷ [], w₁)
        → os.errno w₁ ≡ os.eintr
        → wait_network_event os bits (net_virtuals host os bits) (polling bits fd frees n r w)
          ≡ some (false, polling bits fd frees (pos 0) r w₁)
    unfolding wait_network_event poll_table set_revents
    wait-interrupted w w₁ e signal = rw (e, signal, ==_refl os.eintr)

    pub wait-failed :
        (w w₁ : World)
        → os.poll (new_pollfd bits fd ∷ []) r.net.timeout_millisec w ≡ (negsuc 0, 0 ∷ [], w₁)
        → (os.errno w₁ == os.eintr) ≡ false
        → wait_network_event os bits (net_virtuals host os bits) (polling bits fd frees n r w)
          ≡ some (true, polling bits fd frees (negsuc 0) r (msleep os r.net.timeout_millisec w₁))
    unfolding wait_network_event poll_table set_revents
    wait-failed w w₁ e other = rw (e, other)

    -- One Run of which the wait has found nothing to serve.
    pub run-idle :
        (k : ℤ) (w w₁ w₂ w₃ : World)
        → is_positive k ≡ false
        → os.ended w ≡ (false, w₁)
        → wait_network_event os bits (net_virtuals host os bits) (polling bits fd frees n r w₁)
          ≡ some (true, polling bits fd frees k r w₂)
        → os.ended w₂ ≡ (false, w₃)
        → run os bits (net_virtuals host os bits) (polling bits fd frees n r w)
          ≡ some (true, polling bits fd frees k r w₃)
    unfolding run
    run-idle k w w₁ w₂ w₃ nothing e₁ waits e₂ =
        let v = net_virtuals host os bits in
        >>=-step (read_exit (thread_access os bits v)) _
          (read_exit-lem host os bits (polling bits fd frees n r w) w₁ on e₁)
        ∙ >>=-step (waited_for os bits v) _ (
            >>=-step (wait_network_event os bits v) _ waits
            ∙ >>=-step (read_exit (thread_access os bits v)) _
                (read_exit-lem host os bits (polling bits fd frees k r w₂) w₃ on e₂)
            ∙ rw nothing)

    pub run-interrupted :
        (w w₁ w₂ : World)
        → os.ended w ≡ (false, w₁)
        → wait_network_event os bits (net_virtuals host os bits) (polling bits fd frees n r w₁)
          ≡ some (false, polling bits fd frees (pos 0) r w₂)
        → run os bits (net_virtuals host os bits) (polling bits fd frees n r w)
          ≡ some (true, polling bits fd frees (pos 0) r w₂)
    unfolding run
    run-interrupted w w₁ w₂ e₁ waits =
        let v = net_virtuals host os bits in
        >>=-step (read_exit (thread_access os bits v)) _
          (read_exit-lem host os bits (polling bits fd frees n r w) w₁ on e₁)
        ∙ >>=-step (waited_for os bits v) _ (>>=-step (wait_network_event os bits v) _ waits)
