-- ===== src/Sdk/Reconnect.antt =====
-- sdk/go/reconnect.go. Durations are whole nanoseconds that are not negative. The arithmetic on
-- float64 is a parameter: `scale` multiplies a delay, `jitter` chooses the one that is waited.
use fproto.Base.{
  ℕ, zero, suc, ◌+◌, ◌*◌, ◌^◌, ◌≤◌, ◌≢◌, lt→ltb, ◌<◌, ◌≡◌, refl, Bool, true, false, ◌&&◌, Option,
  none, some, List, [], ◌∷◌, Result, ok, err, ltb, leb, ◌==◌, ==_iff, if◌then◌else◌, Bool-cases,
  inl, inr, All, arith,
}
use fproto.Noise.{Noise}
use fproto.Sdk.Client.{Client, Attempt, Connected, ClientError, connect, cancelled}

pub record ReconnectConfig : Type 0 where
  pub initial_delay : ℕ
  pub max_delay : ℕ
  pub scale : ℕ → ℕ
  pub jitter : ℕ → ℕ
  pub max_attempts : ℕ

abbrev pub second : ℕ
second = 10 ^ 9

-- DefaultReconnectConfig, with the arithmetic for its multiplier 2.0 and its jitter 0.2.
abbrev pub default_reconnect_config : (ℕ → ℕ) → (ℕ → ℕ) → ReconnectConfig
default_reconnect_config scale jitter = record {
  initial_delay = second;
  max_delay = 30 * second;
  scale = scale;
  jitter = jitter;
  max_attempts = 0;
}

-- The configuration that is used: the default one where no delay is given.
abbrev pub config_or_default : ReconnectConfig → ReconnectConfig → ReconnectConfig
config_or_default fallback cfg = if cfg.initial_delay == 0 then fallback else cfg

unfoldable pub next_delay : ReconnectConfig → ℕ → ℕ
next_delay cfg delay =
    if ltb cfg.max_delay (cfg.scale delay) then cfg.max_delay else cfg.scale delay

module _ {Handshake Cipher : Type 0} (n : Noise Handshake Cipher) where
  -- The answer, the client, how often Connect was called, and the waits that were begun, in order.
  pub record Outcome : Type 0 where
    pub answer : Result ClientError (Unit {0})
    pub client : Client n
    pub calls : ℕ
    pub waits : List ℕ

  abbrev pub ended : Result ClientError (Unit {0}) → Client n → List ℕ → Outcome
  ended r c waits = record { answer = r; client = c; calls = 1; waits = waits }

  abbrev pub after_wait : ℕ → Option Outcome → Option Outcome
  after_wait w none = none
  after_wait w (some o) = some (record o { calls = suc o.calls; waits = w ∷ o.waits })

  -- One turn of the loop, after Connect. `attempt` counts the calls before it, `cancels` is whether the
  -- context ends in the wait, and `rest` is the loop from there on.
  abbrev pub turn :
      ReconnectConfig → ℕ → ℕ → Bool → Connected n → (Client n → Option Outcome) → Option Outcome
  turn cfg attempt delay cancels (ok u, c, closes) rest = some (ended (ok u) c [])
  turn cfg attempt delay cancels (err e, c, closes) rest =
      let more = rest c in
      if ltb 0 cfg.max_attempts && leb cfg.max_attempts (attempt + 1)
      then some (ended (err e) c [])
      else if cancels
      then some (ended (err cancelled) c (cfg.jitter delay ∷ []))
      else after_wait (cfg.jitter delay) more

  -- The loop, on fuel: `none` where it runs out. `meets` is what each call of Connect meets.
  unfoldable pub loop :
      ReconnectConfig → (ℕ → Attempt n) → (ℕ → Bool) → ℕ → ℕ → ℕ → Client n → Option Outcome
  loop cfg meets cancels zero attempt delay c = none
  loop cfg meets cancels (suc fuel) attempt delay c =
      turn cfg attempt delay (cancels attempt) (connect n (meets attempt) c)
        (λ c'. loop cfg meets cancels fuel (attempt + 1) (next_delay cfg delay) c')

  -- ConnectWithReconnect; `fallback` is the default configuration.
  unfoldable pub connect_with_reconnect :
      ReconnectConfig
      → ReconnectConfig
      → (ℕ → Attempt n)
      → (ℕ → Bool)
      → ℕ
      → Client n
      → Option Outcome
  connect_with_reconnect fallback cfg meets cancels fuel c =
      let used = config_or_default fallback cfg in
      loop used meets cancels fuel 0 used.initial_delay c

  -- A wait for a delay within a bound.
  abbrev pub Within : ReconnectConfig → ℕ → ℕ → Type 0
  Within cfg bound w = (d : ℕ) × (d ≤ bound) × (w ≡ cfg.jitter d)

  abbrev pub Ends : ReconnectConfig → ℕ → ℕ → Option Outcome → Type 0
  Ends cfg bound most r =
      (o : Outcome) × (r ≡ some o) × (o.calls ≤ most) × All (Within cfg bound) o.waits

  next_delay_within :
      (cfg : ReconnectConfig) (bound delay : ℕ)
      → cfg.max_delay ≤ bound
      → next_delay cfg delay ≤ bound
  unfolding next_delay
  next_delay_within cfg bound delay h = ground arith

  module _ (cfg : ReconnectConfig) (bound : ℕ) where
    after_wait-Ends :
        (delay most : ℕ) (r : Option Outcome)
        → delay ≤ bound
        → Ends cfg bound most r
        → Ends cfg bound (suc most) (after_wait (cfg.jitter delay) r)
    after_wait-Ends delay most r d (o, e, m, w) = (
      record o { calls = suc o.calls; waits = cfg.jitter delay ∷ o.waits },
      rw e refl,
      omega arith,
      ((delay, d, refl), w),
    )

    turn-Ends :
        (attempt delay most : ℕ) (cancels : Bool) (r : Connected n)
        (rest : Client n → Option Outcome)
        → 0 < cfg.max_attempts
        → delay ≤ bound
        → ((c : Client n)
            → leb cfg.max_attempts (attempt + 1) ≡ false
            → Ends cfg bound most (rest c))
        → Ends cfg bound (suc most) (turn cfg attempt delay cancels r rest)
    turn-Ends attempt delay most cancels (ok u, c, closes) rest h d f =
        (ended (ok u) c [], refl, omega arith, tt)
    turn-Ends attempt delay most cancels (err e, c, closes) rest h d f =
        elim (Bool-cases (leb cfg.max_attempts (attempt + 1))) [
          | inl g ↦ rw (lt→ltb 0 cfg.max_attempts h, g) (ended (err e) c [], refl, omega arith, tt)
          | inr g ↦
              rw (lt→ltb 0 cfg.max_attempts h, g)
                (elim cancels
                  as (λ b. Ends cfg bound (suc most) (
                    if b
                    then some (ended (err cancelled) c (cfg.jitter delay ∷ []))
                    else after_wait (cfg.jitter delay) (rest c))) [
                      | true ↦ (
                        ended (err cancelled) c (cfg.jitter delay ∷ []),
                        refl,
                        omega arith,
                        ((delay, d, refl), tt),
                      )
                      | false ↦ after_wait-Ends delay most (rest c) d (f c g)
                    ])
        ]

    loop-Ends :
        (meets : ℕ → Attempt n) (cancels : ℕ → Bool) (fuel attempt delay : ℕ) (c : Client n)
        → 0 < cfg.max_attempts
        → cfg.max_delay ≤ bound
        → cfg.max_attempts ≤ attempt + suc fuel
        → delay ≤ bound
        → Ends cfg bound (suc fuel) (loop cfg meets cancels (suc fuel) attempt delay c)
    unfolding loop
    loop-Ends meets cancels zero attempt delay c h b m d =
        turn-Ends attempt delay 0 (cancels attempt) (connect n (meets attempt) c) _ h d
          (λ c' g. absurd (not_yet g))
      where
        not_yet : leb cfg.max_attempts (attempt + 1) ≢ false
        not_yet g = ground arith
    loop-Ends meets cancels (suc fuel) attempt delay c h b m d =
        turn-Ends attempt delay (suc fuel) (cancels attempt) (connect n (meets attempt) c) _ h d
          (λ c' g.
            loop-Ends meets cancels fuel (attempt + 1) (next_delay cfg delay) c' h b (omega arith)
              (next_delay_within cfg bound delay b))

  loop-unlimited :
      (cfg : ReconnectConfig) (meets : ℕ → Attempt n) (fuel attempt delay : ℕ) (c : Client n)
      → cfg.max_attempts ≡ 0
      → ((k : ℕ) → (meets k).dialed ≡ none)
      → loop cfg meets (λ k. false) fuel attempt delay c ≡ none
  unfolding loop connect next_delay
  loop-unlimited cfg meets zero attempt delay c h d = refl
  loop-unlimited cfg meets (suc fuel) attempt delay c h d =
      rw (d attempt)
        (rw h (rw (loop-unlimited cfg meets fuel (attempt + 1) (next_delay cfg delay) c h d) refl))

-- With an initial delay and a limit on the attempts, ConnectWithReconnect ends, whatever the calls of
-- Connect meet: it calls Connect at most as often as the limit says, and each wait is the jitter of a
-- delay within any bound of the initial and the maximal delay.
pub reconnect_ends :
    {Handshake Cipher : Type 0} (n : Noise Handshake Cipher) (fallback cfg : ReconnectConfig)
    (meets : ℕ → Attempt n) (cancels : ℕ → Bool) (c : Client n) (bound : ℕ)
    → 0 < cfg.initial_delay
    → 0 < cfg.max_attempts
    → cfg.initial_delay ≤ bound
    → cfg.max_delay ≤ bound
    → Ends n cfg bound cfg.max_attempts
        (connect_with_reconnect n fallback cfg meets cancels cfg.max_attempts c)
unfolding connect_with_reconnect
reconnect_ends n fallback cfg meets cancels c bound hd hm hi hb = counted cfg.max_attempts refl
  where
    used : config_or_default fallback cfg ≡ cfg
    used = elim (Bool-cases (cfg.initial_delay == 0)) [
      | inl g ↦ absurd (omega (arith, (==_iff cfg.initial_delay 0).0 g))
      | inr g ↦ rw g refl
    ]

    counted :
        (most : ℕ)
        → cfg.max_attempts ≡ most
        → Ends n cfg bound most (
            loop n
              (config_or_default fallback cfg)
              meets
              cancels
              most
              0
              (config_or_default fallback cfg).initial_delay
              c)
    counted zero e = absurd (omega arith)
    counted (suc k) e =
        rw used (loop-Ends n cfg bound meets cancels k 0 cfg.initial_delay c hm hb (omega arith) hi)

-- A configuration without an initial delay is replaced as a whole by the default one, which has no
-- limit: where no dial succeeds and the context does not end, no number of turns ends the loop,
-- whatever limit the configuration gives.
reconnect_never_ends :
    {Handshake Cipher : Type 0} (n : Noise Handshake Cipher) (scale jitter : ℕ → ℕ)
    (cfg : ReconnectConfig) (meets : ℕ → Attempt n) (c : Client n) (fuel : ℕ)
    → cfg.initial_delay ≡ 0
    → ((k : ℕ) → (meets k).dialed ≡ none)
    → connect_with_reconnect n (default_reconnect_config scale jitter) cfg meets (λ k. false) fuel c
      ≡ none
unfolding connect_with_reconnect
reconnect_never_ends n scale jitter cfg meets c fuel h d =
    rw h (loop-unlimited n (default_reconnect_config scale jitter) meets fuel 0 _ c refl d)
