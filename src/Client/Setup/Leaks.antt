-- ===== src/Client/Setup/Leaks.antt =====
-- client: a rule for each step of a set-up, which says what is open behind it, and `Dial` by these rules.
use libfabric_go.Base.{
  ◌≡◌, refl, ap, ◌∙◌, String, Option, none, some, List, [], ◌∷◌, ◌++◌, map, Bool, ◌&&◌,
  if◌then◌else◌,
}
use libfabric_go.Capi.Errors.{Result, ok, err, GoError}
use libfabric_go.Client.Setup.{
  Resource, Event, opened, closed, Call, Provider, Setup, ◌>>=◌, opens, calls, settles, settled,
  answered, deferred_close, return, remove, is_busy, live_from, live, ◌>>◌,
}

pub live_from-append :
    (strict : Bool) (s : Option (List Resource)) (a b : List Event)
    → live_from strict s (a ++ b) ≡ live_from strict (live_from strict s a) b
live_from-append strict none [] b = refl
live_from-append strict none (e ∷ a) [] = refl
live_from-append strict none (e ∷ a) (f ∷ b) = refl
live_from-append strict (some rs) [] b = refl
live_from-append strict (some rs) (opened r ∷ a) b = live_from-append strict (some (r ∷ rs)) a b
live_from-append strict (some rs) (closed r ∷ a) b =
    live_from-append strict (if is_busy r rs && strict then none else remove r rs) a b

pub live-append :
    (strict : Bool) (log more : List Event) (rs : List Resource)
    → live strict log ≡ some rs
    → live strict (log ++ more) ≡ live_from strict (some rs) more
live-append strict log more rs h =
    live_from-append strict (some []) log more ∙ ap (λ s. live_from strict s more) h

-- Behind a value `after` holds of it and the log, behind an error the resources of `base` are open.
abbrev pub Ensures :
    {A : Type 0} → Bool → List Resource → (A → List Event → Type 0) → List Event × Result A → Type 0
Ensures strict base after (log, ok a) = after a log
Ensures strict base after (log, err e) = live strict log ≡ some base

-- The resources that are open.
abbrev pub Open : Bool → List Resource → List Event → Type 0
Open strict rs log = live strict log ≡ some rs

pub record Spec {A : Type 0} (strict : Bool) (before : List Event → Type 0) (base : List Resource)
    (after : A → List Event → Type 0) (m : Setup A) : Type 0 where
  pub holds : (log : List Event) → before log → Ensures strict base after (m log)

answered-Spec :
    (strict : Bool) (effects : List Event) (cleanup : List Resource) (text : String)
    (o : Option GoError) (before base after : List Resource)
    → live_from strict (some before) effects ≡ some after
    → live_from strict (some before) (map closed cleanup) ≡ some base
    → (log : List Event) → Open strict before log
    → Ensures strict base (λ u. Open strict after) (answered effects cleanup text o log)
unfolding answered
answered-Spec strict effects cleanup text none before base after g k log h =
    live-append strict log effects before h ∙ g
answered-Spec strict effects cleanup text (some e) before base after g k log h =
    live-append strict log (map closed cleanup) before h ∙ k

pub opens-Spec :
    (strict : Bool) (p : Provider) (c : Call) (r : Resource) (cleanup : List Resource)
    (text : String) (before base : List Resource)
    → live_from strict (some before) (map closed cleanup) ≡ some base
    → Spec strict
        (Open strict before)
        base
        (λ u. Open strict (r ∷ before))
        (opens p c r cleanup text)
opens-Spec strict p c r cleanup text before base k = record {
  holds =
      unfold opens in
      (answered-Spec strict (opened r ∷ []) cleanup text (p.refuses c) before base (r ∷ before) refl
        k);
}

pub calls-Spec :
    (strict : Bool) (p : Provider) (c : Call) (cleanup : List Resource) (text : String)
    (before base : List Resource)
    → live_from strict (some before) (map closed cleanup) ≡ some base
    → Spec strict (Open strict before) base (λ u. Open strict before) (calls p c cleanup text)
calls-Spec strict p c cleanup text before base k = record {
  holds =
      unfold calls in
      (answered-Spec strict [] cleanup text (p.refuses c) before base before refl k);
}

settled-Spec :
    (strict : Bool) (cleanup : List Resource) (o : Option GoError) (before base : List Resource)
    → live_from strict (some before) (map closed cleanup) ≡ some base
    → (log : List Event) → Open strict before log
    → Ensures strict base (λ u. Open strict before) (settled cleanup o log)
unfolding settled
settled-Spec strict cleanup none before base k log h = h
settled-Spec strict cleanup (some e) before base k log h =
    live-append strict log (map closed cleanup) before h ∙ k

pub settles-Spec :
    (strict : Bool) (p : Provider) (c : Call) (cleanup before base : List Resource)
    → live_from strict (some before) (map closed cleanup) ≡ some base
    → Spec strict (Open strict before) base (λ u. Open strict before) (settles p c cleanup)
settles-Spec strict p c cleanup before base k = record {
  holds = unfold settles in (settled-Spec strict cleanup (p.refuses c) before base k);
}

pub >>=-Spec :
    {A B : Type 0} (strict : Bool) (m : Setup A) (f : A → Setup B) (before : List Event → Type 0)
    (base : List Resource) (between : A → List Event → Type 0) (after : B → List Event → Type 0)
    → Spec strict before base between m
    → ((a : A) → Spec strict (between a) base after (f a))
    → Spec strict before base after (m >>= f)
unfolding ◌>>=◌
>>=-Spec {A} {B} strict m f before base between after hm hf = record {
  holds = λ log h. go (m log) (hm.holds log h);
}
  where
    go :
        (o : List Event × Result A)
        → Ensures strict base between o
        → Ensures strict base after
            (let (log', r) = o in elim r [ ok a ↦ f a log' | err e ↦ (log', err e) ])
    go (log', ok a) e = (hf a).holds log' e
    go (log', err x) e = e

-- A step followed by another, and a step that is the last.
pub then_opens :
    {B : Type 0} (strict : Bool) (p : Provider) (c : Call) (r : Resource) (cleanup : List Resource)
    (text : String) (k : Setup B) (before base : List Resource) (after : B → List Event → Type 0)
    → live_from strict (some before) (map closed cleanup) ≡ some base
    → Spec strict (Open strict (r ∷ before)) base after k
    → Spec strict (Open strict before) base after (opens p c r cleanup text >> k)
unfolding ◌>>◌
then_opens strict p c r cleanup text k before base after e h =
    >>=-Spec strict (opens p c r cleanup text) (λ u. k) (Open strict before) base
      (λ u. Open strict (r ∷ before)) after (opens-Spec strict p c r cleanup text before base e)
      (λ u. h)

pub then_calls :
    {B : Type 0} (strict : Bool) (p : Provider) (c : Call) (cleanup : List Resource) (text : String)
    (k : Setup B) (before base : List Resource) (after : B → List Event → Type 0)
    → live_from strict (some before) (map closed cleanup) ≡ some base
    → Spec strict (Open strict before) base after k
    → Spec strict (Open strict before) base after (calls p c cleanup text >> k)
unfolding ◌>>◌
then_calls strict p c cleanup text k before base after e h =
    >>=-Spec strict (calls p c cleanup text) (λ u. k) (Open strict before) base
      (λ u. Open strict before) after (calls-Spec strict p c cleanup text before base e) (λ u. h)

-- A value behind the last step, and what is known of it.
pub then_return :
    {A : Type 0} (strict : Bool) (m : Setup (Unit {0})) (a : A) (before : List Event → Type 0)
    (base after : List Resource) (K : A → Type 0)
    → K a
    → Spec strict before base (λ u. Open strict after) m
    → Spec strict before base (λ b log. K b × Open strict after log) (m >> return a)
unfolding ◌>>◌
then_return strict m a before base after K c h =
    >>=-Spec strict m (λ u. return a) before base (λ u. Open strict after)
      (λ b log. K b × Open strict after log) h
      (λ u. record { holds = unfold return in λ log k. (c, k) })

-- A deferred close: what it closes is the newest in the base, and open behind a value too. `K` is what
-- else is known of the value.
pub deferred_close-Spec :
    {A : Type 0} (strict : Bool) (r : Resource) (m : Setup A) (before after base : List Resource)
    (rest : List Resource) (K : A → Type 0)
    → (if is_busy r after && strict then none else remove r after) ≡ some rest
    → Spec strict (Open strict before) (r ∷ base) (λ a log. K a × Open strict after log) m
    → live_from strict (some (r ∷ base)) (closed r ∷ []) ≡ some base
    → Spec strict
        (Open strict before)
        base
        (λ a log. K a × Open strict rest log)
        (deferred_close r m)
deferred_close-Spec {A} strict r m before after base rest K e h k = record {
  holds = unfold deferred_close in λ log b. go (m log) (h.holds log b);
}
  where
    go :
        (o : List Event × Result A)
        → Ensures strict (r ∷ base) (λ a log. K a × Open strict after log) o
        → Ensures strict base (λ a log. K a × Open strict rest log) (o.0 ++ closed r ∷ [], o.1)
    go (log, ok a) (c, b) =
        (c, live-append strict log (closed r ∷ []) after b ∙ ap (λ s. live_from strict s []) e)
    go (log, err x) b = live-append strict log (closed r ∷ []) (r ∷ base) b ∙ k
