-- ===== src/Scenario/Chain/Reading.antt =====
-- Runs that read the chain and leave it alone, and what a run that did not throw went through.
use rasa_lending_platform_sm.Prelude.{◌≡◌, ◌↔◌}
use rasa_lending_platform_sm.Prelude.Result.{Result, ok, err}
use rasa_lending_platform_sm.Scenario.Chain.{Run, pure, lift, asks, ◌>>=◌, continue-eq-ok}

unfoldable pub Reads : {S A : Type 0} → Run S A → Type 0
Reads {S} {A} m = (s t : S) (a : A) → m s ≡ ok (a, t) → s ≡ t

-- The run `m` reads a value of the state `s`, of which `P` holds.
abbrev pub Reading : {S A : Type 0} → Run S A → S → (A → Type 0) → Type 0
Reading {S} {A} m s P = (a : A) × (m s ≡ ok (a, s)) × P a

pub lift-Reads : {A : Type 0} (S : Type 0) (r : Result A) → Reads {S = S} (lift r)
unfolding Reads
lift-Reads S (ok a) s t b e = cc
lift-Reads S (err x) s t b e = cc

pub pure-Reads : {A : Type 0} (S : Type 0) (a : A) → Reads {S = S} (pure a)
unfolding Reads
pure-Reads S a s t b e = cc

pub asks-Reads : {S A : Type 0} (f : S → A) → Reads (asks f)
unfolding Reads
asks-Reads f s t b e = cc

pub >>=-Reads :
    {S A B : Type 0} (m : Run S B) (f : B → Run S A)
    → Reads m
    → ((b : B) → Reads (f b))
    → Reads (m >>= f)
unfolding Reads
>>=-Reads m f first second s t a e =
    let (b, u, read, rest) = continue-eq-ok f (m s) e in
    let at_u : s ≡ u = first s u b read in let at_t : u ≡ t = second b u t a rest in cc

-- A run that starts by reading passes if what it reads makes the rest pass.
pub reading_iff :
    {S A B : Type 0} (m : Run S A) (f : A → Run S B) (P : A → Type 0) (s t : S) (b : B)
    → Reads m
    → ((a : A) → (f a s ≡ ok (b, t)) ↔ P a)
    → ((m >>= f) s ≡ ok (b, t)) ↔ Reading m s P
unfolding Reads
reading_iff m f P s t b reads h = (
  λ e.
      let (a, u, read, rest) = continue-eq-ok f (m s) e in
      let same : s ≡ u = reads s u a read in
      let read' : m s ≡ ok (a, s) = cc in
      let rest' : f a s ≡ ok (b, t) = cc in (a, read', (h a).0 rest'),
  λ (a, read, p). let passed : f a s ≡ ok (b, t) = (h a).1 p in rw (read) passed,
)

-- The run `m` takes the state `s` to another, of which, with what `m` returns, `P` holds.
abbrev pub Stepping : {S A : Type 0} → Run S A → S → (A → S → Type 0) → Type 0
Stepping {S} {A} m s P = (a : A) × (u : S) × (m s ≡ ok (a, u)) × P a u

pub stepping_iff :
    {S A B : Type 0} (m : Run S A) (f : A → Run S B) (P : A → S → Type 0) (s t : S) (b : B)
    → ((a : A) (u : S) → (f a u ≡ ok (b, t)) ↔ P a u)
    → ((m >>= f) s ≡ ok (b, t)) ↔ Stepping m s P
stepping_iff m f P s t b h = (
  λ e. let (a, u, step, rest) = continue-eq-ok f (m s) e in (a, u, step, (h a u).0 rest),
  λ (a, u, step, p). let passed : f a u ≡ ok (b, t) = (h a u).1 p in rw (step) passed,
)
