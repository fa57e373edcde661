-- ===== src/Examples/Programs.antt =====
-- The legacy program, and the program with CiUtils, on a system with one datagram that waits.
use libcastis_heartbeat.Prelude.{ℕ, ℤ, ◌≡◌, refl, pos, true, [], ◌∷◌, some}
use libcastis_heartbeat.Defs.{alive}
use libcastis_heartbeat.Wire.Hosts.{little}
use libcastis_heartbeat.Wire.Response.{Response}
use libcastis_heartbeat.Poll.{read_bits}
use libcastis_heartbeat.Semaphore
use libcastis_heartbeat.Net.{nu_disconnect}
use libcastis_heartbeat.Session.{bytes_of}
use libcastis_heartbeat.Responser.Script.{ends, arrives}
use libcastis_heartbeat.Responser.Datagram.{request_of, answer}
use libcastis_heartbeat.Programs.Platform.{linux}
use libcastis_heartbeat.Programs.Legacy.{main}
use libcastis_heartbeat.Programs.Legacy.Serves.{main-serves}
use libcastis_heartbeat.Programs.WithCiUtils
use libcastis_heartbeat.Programs.WithCiUtils.{CiThread}
use libcastis_heartbeat.Programs.WithCiUtils.Serves.{main-serves_with_ci_utils}
use libcastis_heartbeat.Examples.Systems.{Kernel, kernel, sockets}
use libcastis_heartbeat.Examples.Polls.{linux_bits}
use libcastis_heartbeat.Examples.Legacy.{request, request-bytes}

-- One round answers the request, and the next ends the thread.
abbrev pub start : Kernel
start = record { inbox = (request, 9) ∷ []; outbox = []; closed = []; reads = 3 }

-- The world once the request is taken and the flag is read three times.
abbrev taken : Kernel
taken = record { inbox = []; outbox = []; closed = []; reads = 0 }

abbrev response : ℕ → Response
response seq_num = record {
  seq_num = seq_num;
  representative_ip = bytes_of "127.0.0.1";
  state = alive;
  local_ip = bytes_of "127.0.0.1";
}

abbrev finished : Kernel
finished = answer sockets (pos 3) (request_of request) 9 response taken

main-serves_example :
    main (linux little kernel linux_bits 1 0 []) 3 start
    ≡ some (
      pos 0,
      (Semaphore.finalize kernel
          (Semaphore.post kernel (nu_disconnect kernel (pos 3) finished).1).1).1,
    )
unfolding Semaphore.wait Semaphore.initialize read_bits
main-serves_example =
    main-serves little kernel linux_bits 1 0 [] 2 ((request, 9) ∷ []) true start start finished refl
      refl refl refl (arrives {revents = 1} refl refl refl refl refl refl request-bytes (ends refl))

-- A CCiThread2 of CiUtils that takes the descriptor 7 and closes it in the end.
abbrev ci_thread : CiThread ℤ Kernel
ci_thread = record {
  construct = λ w. (pos 7, w);
  destroy = λ fd w. record w { closed = fd ∷ w.closed };
}

main-serves_with_ci_utils_example :
    WithCiUtils.main (linux little kernel linux_bits 1 0 []) ci_thread 3 start
    ≡ some (
      pos 0,
      (Semaphore.finalize kernel (
          ci_thread.destroy
            (pos 7)
            (Semaphore.post kernel (nu_disconnect kernel (pos 3) finished).1).1)).1,
    )
unfolding Semaphore.wait Semaphore.initialize read_bits
main-serves_with_ci_utils_example =
    main-serves_with_ci_utils little kernel linux_bits 1 0 [] ci_thread 2 ((request, 9) ∷ []) true
      start start finished refl refl refl refl
      (arrives {revents = 1} refl refl refl refl refl refl request-bytes (ends refl))
