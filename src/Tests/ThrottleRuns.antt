-- ===== src/Tests/ThrottleRuns.antt =====
-- The pauses between accesses, on the sample bus, which here notes when each access starts.
use daikin_d3net.Base.{ℕ, arith, refl, ◌≡◌, List, [], ◌∷◌}
use daikin_d3net.Gateway.Bus.{Transport, holding}
use daikin_d3net.Gateway.{init}
use daikin_d3net.Gateway.Throttle.{Times, Access, reading, writing, access}
use daikin_d3net.Tests.Sample.{Block, bus, world}

-- The block and the times of the accesses.
abbrev Noted : Type 0
Noted = Block × List ℕ

abbrev noting : Transport
noting = record {
  World = Noted;
  read_fn = λ w ty address count buffer.
      let (err, out, b) = bus.read_fn w.0 ty address count buffer in
      (err, out, (b, w.0.clock ∷ w.1));
  write_fn = λ w address count words.
      let (err, b) = bus.write_fn w.0 address count words in (err, (b, w.0.clock ∷ w.1));
  delay = λ w ms. (bus.delay w.0 ms, w.1);
  time_us = λ w. w.0.clock;
  read-IsWords = λ w ty address count buffer v. bus.read-IsWords w.0 ty address count buffer v;
  read_failed = λ w ty address count buffer h. bus.read_failed w.0 ty address count buffer h;
}

abbrev times : Times noting
times = record {
  starts = λ w. w.1;
  slack = 0;
  read_starts = λ w ty address count buffer. refl;
  write_starts = λ w address count words. refl;
  delay_keeps = λ w ms. refl;
  delay_lasts = λ w ms. omega arith;
}

-- A read at 5 s, and a write 10 ms later.
abbrev first_read : Access
first_read = reading holding 2006 3 []

abbrev next_write : Access
next_write = writing 2006 3 (0 ∷ 2 ∷ 0 ∷ [])

abbrev start_world : Noted
start_world = (world, [])

abbrev between : Noted
between = (record world { clock = 5010000 }, 5000000 ∷ [])

access_runs :
    (access noting next_write
      (access noting first_read (init 1) 5000 start_world).0
      5010
      between).1.1
    ≡ 5025000 ∷ 5000000 ∷ []
unfolding access init
access_runs = refl
