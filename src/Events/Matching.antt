-- ===== src/Events/Matching.antt =====
-- What test-suites/helpers/utils/helpers.ts, `matchEvent`, accepts.
use rasa_lending_platform_sm.Prelude.{
  ◌≡◌, refl, ap, ◌∙◌, ◌↔◌, ◌⊎◌, inl, inr, Bool, true, false, Bool-cases, String, Option, none, some,
  List, [], ◌∷◌, ◌++◌, if◌then◌else◌,
}
use rasa_lending_platform_sm.Prelude.Result.{Result, ok, err, thrown, ◌>>=◌}
use rasa_lending_platform_sm.Events.{
  Arg, Log, Interface, Ethers, sig_hash, is_candidate, is_expected, match_logs, match_event, quoted,
}

module _ (e : Ethers) (interface : Interface) (name : String) (emitter : Option String)
    (expected : Option (List Arg)) where
  -- The log is of another event or emitter, or has other arguments than those expected.
  abbrev pub IsSkipped : String → Log → Type 0
  IsSkipped hash log =
      (is_candidate e hash emitter log ≡ false)
      ⊎ (is_expected e interface name expected log ≡ ok false)

  abbrev pub AllSkipped : String → List Log → Type 0
  AllSkipped hash [] = Unit {0}
  AllSkipped hash (log ∷ logs) = IsSkipped hash log × AllSkipped hash logs

  -- The first log of the event and the emitter that does not have other arguments has the expected ones.
  abbrev pub IsEmitted : String → List Log → Type 0
  IsEmitted hash logs =
      (before : List Log) × (log : Log) × (after : List Log) × (logs ≡ before ++ (log ∷ after))
      × AllSkipped hash before
      × (is_candidate e hash emitter log ≡ true)
      × (is_expected e interface name expected log ≡ ok true)

  -- The loop passes over what it skips.
  match_logs-skipped :
      (hash : String) (flag : Bool) (log : Log) (logs : List Log)
      → IsSkipped hash log
      → (next : Bool) × (match_logs e interface hash name emitter expected flag (log ∷ logs)
          ≡ match_logs e interface hash name emitter expected next logs)
  unfolding match_logs
  match_logs-skipped hash flag log logs (inl other) = (flag, rw (other) refl)
  match_logs-skipped hash flag log logs (inr mismatch) =
      elim (Bool-cases (is_candidate e hash emitter log)) [
        | inl candidate ↦ (true, rw (candidate, mismatch) refl)
        | inr other ↦ (flag, rw (other) refl)
      ]

  match_logs_passes :
      (hash : String) (flag : Bool) (before : List Log) (log : Log) (after : List Log)
      → AllSkipped hash before
      → is_candidate e hash emitter log ≡ true
      → is_expected e interface name expected log ≡ ok true
      → match_logs e interface hash name emitter expected flag (before ++ (log ∷ after)) ≡ ok tt
  unfolding match_logs
  match_logs_passes hash flag [] log after skipped candidate found = rw (candidate, found) refl
  match_logs_passes hash flag (other ∷ before) log after (skip, skipped) candidate found =
      let (next, same) = match_logs-skipped hash flag other (before ++ (log ∷ after)) skip in
      same ∙ match_logs_passes hash next before log after skipped candidate found

  after_skipped :
      (hash : String) (log : Log) (logs : List Log)
      → IsSkipped hash log
      → IsEmitted hash logs
      → IsEmitted hash (log ∷ logs)
  after_skipped hash log logs skip (before, found, after, split, skipped, candidate, same) =
      (log ∷ before, found, after, ap (λ rest. log ∷ rest) split, (skip, skipped), candidate, same)

  -- What the loop does with a candidate.
  candidate-passes :
      (hash : String) (log : Log) (logs : List Log) (r : Result Bool)
      → is_candidate e hash emitter log ≡ true
      → is_expected e interface name expected log ≡ r
      → (r >>= λ same.
          if same then ok tt else match_logs e interface hash name emitter expected true logs)
        ≡ ok tt
      → (match_logs e interface hash name emitter expected true logs ≡ ok tt → IsEmitted hash logs)
      → IsEmitted hash (log ∷ logs)
  candidate-passes hash log logs (err why) candidate result h rest = cc
  candidate-passes hash log logs (ok true) candidate result h rest =
      ([], log, logs, refl, tt, candidate, result)
  candidate-passes hash log logs (ok false) candidate result h rest =
      after_skipped hash log logs (inr result) (rest h)

  match_logs-IsEmitted :
      (hash : String) (flag : Bool) (logs : List Log)
      → match_logs e interface hash name emitter expected flag logs ≡ ok tt
      → IsEmitted hash logs
  unfolding match_logs
  match_logs-IsEmitted hash true [] h = cc
  match_logs-IsEmitted hash false [] h = cc
  match_logs-IsEmitted hash flag (log ∷ logs) h =
      by_candidate (is_candidate e hash emitter log) refl h
        (λ next. match_logs-IsEmitted hash next logs)
    where
      by_candidate :
          (b : Bool)
          → is_candidate e hash emitter log ≡ b
          → (if b
              then (is_expected e interface name expected log >>= λ same.
                  if same
                  then ok tt
                  else match_logs e interface hash name emitter expected true logs)
              else match_logs e interface hash name emitter expected flag logs)
            ≡ ok tt
          → ((next : Bool)
              → match_logs e interface hash name emitter expected next logs ≡ ok tt
              → IsEmitted hash logs)
          → IsEmitted hash (log ∷ logs)
      by_candidate true candidate h rest =
          candidate-passes hash log logs (is_expected e interface name expected log) candidate refl
            h (rest true)
      by_candidate false other h rest = after_skipped hash log logs (inl other) (rest flag h)

  pub match_event_iff :
      (logs : List Log)
      → (match_event e (some logs) name interface emitter expected ≡ ok tt)
        ↔ ((hash : String) × (sig_hash e name interface.events ≡ some hash) × IsEmitted hash logs)
  unfolding match_event
  match_event_iff logs = (
    λ h. by_hash (sig_hash e name interface.events) refl h,
    λ (hash, found, (before, log, after, split, skipped, candidate, same)).
        rw (found, match_event, split)
          (match_logs_passes hash false before log after skipped candidate same),
  )
    where
      by_hash :
          (o : Option String)
          → sig_hash e name interface.events ≡ o
          → (elim o as (λ _. Result (Unit {0})) [
            | none ↦ err (
                thrown (
                  quoted "Event \"" name
                    "\" not found in provided contract. \nAre you sure you're using the right contract?"))
            | some hash ↦ match_logs e interface hash name emitter expected false logs
          ])
            ≡ ok tt
          → (hash : String) × (sig_hash e name interface.events ≡ some hash) × IsEmitted hash logs
      by_hash none found h = cc
      by_hash (some hash) found h = (hash, found, match_logs-IsEmitted hash false logs h)
