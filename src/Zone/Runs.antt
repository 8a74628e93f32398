-- ===== src/Zone/Runs.antt =====
-- Runs in which no statement fails: one rule for each way that the activities and workflows of
-- zones are put together (internal/activity/dns.go, internal/workflow/zone_record.go).
use hosting.Common.{ℕ, ◌+◌, ◌≡◌, refl, Bytes, Option, none, some}
use hosting.Common.Result.{ok}
use hosting.Zone.Stores.{
  Stores, Server, done, M, pure, ◌>>=◌, ◌>>◌, attempt, ignore, wrap, query, exec,
}
use hosting.Zone.Records.{retrying, activity, or_fail}

abbrev pub Faultless : Server → Type 0
Faultless srv = (n : ℕ) → srv.fault n ≡ none

-- From the tables s, whatever the number of statements before, m ends well, with a and s'.
pub record Runs {A : Type 0} (m : M A) (s : Stores) (a : A) (s' : Stores) : Type 0 where
  pub ends : (n : ℕ) → (k : ℕ) × (m s n ≡ done a s' k)

pub Runs-bind :
    {A B : Type 0} {m : M A} (f : A → M B) {a : A} {b : B} {s s' s'' : Stores}
    → Runs m s a s'
    → Runs (f a) s' b s''
    → Runs (m >>= f) s b s''
unfolding ◌>>=◌
Runs-bind f h h' = record {
  ends = λ n. let (k, e) = h.ends n in let (k', e') = h'.ends k in (k', rw (e, ◌>>=◌) e');
}

pub Runs-then :
    {B : Type 0} {m : M (Unit {0})} {m' : M B} {b : B} {s s' s'' : Stores}
    → Runs m s tt s'
    → Runs m' s' b s''
    → Runs (m >> m') s b s''
Runs-then h h' = Runs-bind _ h h'

module _ {A : Type 0} {m : M A} {a : A} {s s' : Stores} (h : Runs m s a s') where
  pub Runs-wrap : (text : Bytes) → Runs (wrap text m) s a s'
  unfolding wrap
  Runs-wrap text = record { ends = λ n. let (k, e) = h.ends n in (k, rw (e, wrap) refl) }

  pub Runs-attempt : Runs (attempt m) s (ok a) s'
  unfolding attempt
  Runs-attempt = record { ends = λ n. let (k, e) = h.ends n in (k, rw (e, attempt) refl) }

  pub Runs-ignore : Runs (ignore m) s tt s'
  unfolding ignore
  Runs-ignore = record { ends = λ n. let (k, e) = h.ends n in (k, rw (e, ignore) refl) }

  pub Runs-activity : Runs (activity m) s a s'
  unfolding activity retrying
  Runs-activity = record {
    ends = λ n. let (k, e) = h.ends n in (k, rw (e, activity, retrying) refl);
  }

  pub Runs-or_fail : (srv : Server) (id : Bytes) → Runs (or_fail srv id m) s a s'
  unfolding or_fail
  Runs-or_fail srv id = record { ends = λ n. let (k, e) = h.ends n in (k, rw (e, or_fail) refl) }

pub Runs-pure : {A : Type 0} (a : A) (s : Stores) → Runs (pure a) s a s
Runs-pure a s = record { ends = λ n. (n, refl) }

module _ (srv : Server) (quiet : Faultless srv) where
  pub Runs-query :
      {A : Type 0} (rows : Stores → A) (s : Stores) → Runs (query srv rows) s (rows s) s
  unfolding query
  Runs-query rows s = record { ends = λ n. (n + 1, rw (quiet n, query) refl) }

  pub Runs-exec :
      (change : ℕ → Stores → Option Stores) (s s' : Stores)
      → ((n : ℕ) → change n s ≡ some s')
      → Runs (exec srv change) s tt s'
  unfolding exec
  Runs-exec change s s' e = record { ends = λ n. (n + 1, rw (quiet n, exec, e n) refl) }
