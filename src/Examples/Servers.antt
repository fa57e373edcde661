-- ===== src/Examples/Servers.antt =====
-- The program of the session, to which two requests come: a whole one, and an empty datagram, which the
-- session takes for the request 0.
use libcastis_heartbeat.Prelude.{ℕ, ◌≡◌, refl, ℤ, pos, List, [], ◌∷◌, some, arith}
use libcastis_heartbeat.Wire.Hosts.{little}
use libcastis_heartbeat.Session.{bytes_of, handle_error, new_session}
use libcastis_heartbeat.Programs.AsioBase.{Arrival, deliver_all, main}
use libcastis_heartbeat.Programs.AsioBase.Serves.{Requests, no_more, request, answers, main-answers}
use libcastis_heartbeat.Examples.Systems.{Udp, Buffer, udp}

abbrev print_nothing : ℤ → List ℕ
print_nothing code = []

abbrev whole : Arrival ℕ Buffer
whole = record {
  request = record { readable = []; arrived = 0 ∷ 0 ∷ 0 ∷ 0 ∷ 0 ∷ 0 ∷ 1 ∷ 2 ∷ [] };
  sender = 9;
  err = pos 0;
  bytes_recvd = 8;
}

abbrev empty : Arrival ℕ Buffer
empty = record {
  request = record { readable = []; arrived = [] };
  sender = 10;
  err = pos 0;
  bytes_recvd = 0;
}

abbrev off : Udp
off = record { sent = []; receives = 0; reports = [] }

both :
    Requests little udp
      (handle_error little udp print_nothing)
      (whole ∷ empty ∷ [])
      ((9, 258) ∷ (10, 0) ∷ [])
both =
    request 258 refl
      (
        omega arith,
        (
          omega arith,
          (
            omega arith,
            (omega arith, (omega arith, (omega arith, (omega arith, (omega arith, tt))))),
          ),
        ),
      )
      refl (request 0 refl tt refl no_more)

main-answers_example :
    main little udp print_nothing
      (deliver_all little udp (handle_error little udp print_nothing) (whole ∷ empty ∷ []))
      0
      off
    ≡ (
      pos 0,
      some
          (udp.close (
            answers little udp
              (handle_error little udp print_nothing)
              (new_session (bytes_of "127.0.0.1") (bytes_of "127.0.0.1") 8090 0)
              ((9, 258) ∷ (10, 0) ∷ [])
              (record off { receives = 1 }))).1,
    )
main-answers_example =
    main-answers little udp print_nothing (λ bytes e w. refl) (whole ∷ empty ∷ [])
      ((9, 258) ∷ (10, 0) ∷ []) 0 off off off off refl refl refl both
