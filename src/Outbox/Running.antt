-- ===== src/Outbox/Running.antt =====
-- `start`, `stop` and the flag `_running` of the relay.
use message_deduplication_id.Prelude.{
  ℕ, ◌≡◌, refl, Bool, true, false, List, [], ◌∷◌, ◌++◌, arith, if◌then◌else◌,
}
use message_deduplication_id.Prelude.Exec.{Exec, ok, pure, ◌>>◌}
use message_deduplication_id.Outbox.{Services, World, poll, relay_loop}

module _ (P : Services) (batch_size : ℕ) (sleep : Exec (World P) Unit) where
  pub record Relay : Type 0 where
    pub running : Bool
    pub world : World P

  -- `__init__`
  unfoldable pub new : World P → Relay
  new w = record { running = false; world = w }

  unfoldable pub stop : Exec Relay Unit
  stop self = pure tt (record self { running = false })

  abbrev pub on_world : {A : Type 0} → Exec (World P) A → Exec Relay A
  on_world m self = let (r, w) = m self.world in (r, record self { world = w })

  -- One turn of the loop: the rows that are locked in it, and what other tasks do with the flag.
  pub record Turn : Type 0 where
    pub locked : ℕ → Bool
    pub sets : Bool → Bool

  abbrev pub others : Turn → Exec Relay Unit
  others t self = pure tt (record self { running = t.sets self.running })

  unfoldable pub loop : List Turn → Exec Relay Unit
  loop [] self = pure tt self
  loop (t ∷ turns) self =
      let next = on_world (poll P batch_size sleep t.locked) >> (others t >> loop turns) in
      (if self.running then next else pure tt) self

  unfoldable pub start : List Turn → Exec Relay Unit
  start turns self = loop turns (record self { running = true })

  -- the flag at the beginning of each turn, with its locks
  unfoldable pub flags : Bool → List Turn → List (Bool × (ℕ → Bool))
  flags b [] = []
  flags b (t ∷ turns) = (b, t.locked) ∷ flags (t.sets b) turns

  loop-flags :
      (turns : List Turn) (self : Relay)
      → ((loop turns self).0
          ≡ (relay_loop P batch_size sleep (flags self.running turns) self.world).0)
        × ((loop turns self).1.world
            ≡ (relay_loop P batch_size sleep (flags self.running turns) self.world).1)
  unfolding loop flags relay_loop
  loop-flags [] self = (refl, refl)
  loop-flags (t ∷ turns) self =
      let after = (poll P batch_size sleep t.locked self.world).1 in
      let rest = loop-flags turns (record { running = t.sets self.running; world = after }) in
      (ground arith, ground arith)

  -- The relay's loop is the loop on the flags that its turns find.
  pub start-relay_loop :
      (turns : List Turn) (self : Relay)
      → ((start turns self).0 ≡ (relay_loop P batch_size sleep (flags true turns) self.world).0)
        × ((start turns self).1.world
            ≡ (relay_loop P batch_size sleep (flags true turns) self.world).1)
  unfolding start
  start-relay_loop turns self = loop-flags turns (record self { running = true })

  loop-stopped :
      (turns : List Turn) (w : World P)
      → loop turns (record { running = false; world = w })
        ≡ (ok tt, record { running = false; world = w })
  unfolding loop
  loop-stopped [] w = refl
  loop-stopped (t ∷ turns) w = refl

  loop_stops :
      (before after : List Turn) (t : Turn) (self : Relay)
      → ((b : Bool) → t.sets b ≡ false)
      → loop (before ++ (t ∷ after)) self ≡ loop (before ++ (t ∷ [])) self
  unfolding loop
  loop_stops [] after t self stops =
      let ends = loop-stopped after (poll P batch_size sleep t.locked self.world).1 in
      let flag = stops self.running in ground arith
  loop_stops (u ∷ before) after t self stops =
      let rest =
        loop_stops before after t
          (record {
            running = u.sets self.running;
            world = (poll P batch_size sleep u.locked self.world).1;
          })
          stops in
      ground arith

  -- A turn in which the relay is stopped, and not started again, is its last one: no batch is taken
  -- after it, whatever would have come.
  pub start_stops :
      (before after : List Turn) (t : Turn) (self : Relay)
      → ((b : Bool) → t.sets b ≡ false)
      → start (before ++ (t ∷ after)) self ≡ start (before ++ (t ∷ [])) self
  unfolding start
  start_stops before after t self stops =
      loop_stops before after t (record self { running = true }) stops

  -- A stop that comes before the start is lost.
  pub start-stop : (turns : List Turn) (self : Relay) → start turns (stop self).1 ≡ start turns self
  unfolding start stop
  start-stop turns self = refl
