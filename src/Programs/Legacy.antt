-- ===== src/Programs/Legacy.antt =====
-- examples/legacy_compatible/legacy_compatible.cpp
pub mod Begins
pub mod Ends
pub mod OnWindows
pub mod Serves
use libcastis_heartbeat.Prelude.{ℕ, ℤ, pos, not, if◌then◌else◌, Option, none, some}
use libcastis_heartbeat.Thread.{run_thread_here}
use libcastis_heartbeat.Session.{bytes_of}
use libcastis_heartbeat.Programs.Platform.{Platform}

unfoldable pub main : {S World : Type 0} → Platform S World → ℕ → World → Option (ℤ × World)
main p fuel w =
    let (ready, w₁) = p.prepare w in
    let hbr = p.construct (bytes_of "127.0.0.1") 8090 (bytes_of "127.0.0.1") (pos 10) w₁ in
    let ran = run_thread_here p.virtuals fuel hbr in
    if not ready
    then some (pos 1, w₁)
    else elim ran [ none ↦ none | some (ok, s) ↦ some (pos 0, p.destroy s) ]
