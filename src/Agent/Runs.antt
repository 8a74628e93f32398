-- ===== src/Agent/Runs.antt =====
-- Rules for the commands that a part of the agent has run.
use hosting.Common.{◌≡◌, refl, ap, ◌∙◌, Bool, Bytes, none, arith}
use hosting.Common.Result.{Result, ok, err}
use hosting.Agent.Shell.{
  Command, Outcome, Host, Shell, Sh, continue, after, run, must, succeeded, ◌>>=◌, ◌>>◌,
}
use hosting.Agent.TenantUla.{unless}

-- A chain that gives no error is its first part, without an error, and then the rest.
pub bind-eq-ok :
    {A B : Type 0} (m : Sh A) (f : A → Sh B) (s : Shell) {b : B}
    → ((m >>= f) s).0 ≡ ok b
    → (a : A) × ((m s).0 ≡ ok a) × ((m >>= f) s ≡ f a (m s).1)
unfolding ◌>>=◌
bind-eq-ok {A} {B} m f s h = let (r, s') = m s in go r s' h
  where
    go :
        (r : Result A) (t : Shell) {b : B}
        → (continue r f t).0 ≡ ok b
        → (a : A) × (r ≡ ok a) × (continue r f t ≡ f a t)
    go (ok a) t e = (a, refl, refl)
    go (err text) t e = cc

pub succeeded_state : (what : Bytes) (out : Outcome) (s : Shell) → (succeeded what out s).1 ≡ s
succeeded_state what out s = ground arith

pub must_state :
    (host : Host) (what : Bytes) (c : Command) (s : Shell) → (must host what c s).1 ≡ after c s
unfolding must ◌>>=◌
must_state host what c s = succeeded_state what (host s.count c) (after c s)

pub must_result :
    (host : Host) (what : Bytes) (c : Command) (s : Shell)
    → (must host what c s).0 ≡ ok tt
    → (host s.count c).failure ≡ none
unfolding must ◌>>=◌
must_result host what c s h = ground arith

pub unless_state :
    (test : Bytes → Bool) (what : Bytes) (out : Outcome) (s : Shell)
    → (unless test what out s).1 ≡ s
unless_state test what out s = ground arith

-- A command that must succeed, and the rest, without an error.
pub must-bind-ok :
    {B : Type 0} (host : Host) (what : Bytes) (c : Command) (k : Sh B) (s : Shell) {b : B}
    → ((must host what c >> k) s).0 ≡ ok b
    → ((host s.count c).failure ≡ none) × ((must host what c >> k) s ≡ k (after c s))
must-bind-ok host what c k s h =
    let (a, p, q) = bind-eq-ok (must host what c) (λ _. k) s h in
    (must_result host what c s p, q ∙ ap k (must_state host what c s))

-- A chain of parts that run nothing runs nothing.
pub bind_state :
    {A B : Type 0} (m : Sh A) (f : A → Sh B) (s : Shell)
    → (m s).1 ≡ s
    → ((a : A) (t : Shell) → (f a t).1 ≡ t)
    → ((m >>= f) s).1 ≡ s
unfolding ◌>>=◌
bind_state {A} {B} m f s h k = let (r, t) = m s in go r t h
  where
    go : (r : Result A) (t : Shell) → t ≡ s → (continue r f t).1 ≡ s
    go (ok a) t e = k a t ∙ e
    go (err text) t e = e

-- A command whose error is passed over on some outputs, and the rest, without an error.
pub unless-bind-ok :
    {B : Type 0} (host : Host) (test : Bytes → Bool) (what : Bytes) (c : Command) (k : Sh B)
    (s : Shell) {b : B}
    → ((run host c >>= λ out. unless test what out >> k) s).0 ≡ ok b
    → (run host c >>= λ out. unless test what out >> k) s ≡ k (after c s)
unfolding run ◌>>=◌
unless-bind-ok host test what c k s h =
    let m = unless test what (host s.count c) in
    let (a, p, q) = bind-eq-ok m (λ _. k) (after c s) h in
    q ∙ ap k (unless_state test what (host s.count c) (after c s))
