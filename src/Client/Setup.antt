-- ===== src/Client/Setup.antt =====
-- client/client.go, client/connect.go and client/listener.go: the resources that a client opens and
-- closes. An opened resource and a call of Close are the events of a log. Whether a call of the fi package
-- succeeds is the answer of the C library behind it, an argument. The answer to a close is dropped, as
-- in the source, and is no part of the log: a log tells on what Close was called, and `live`, if asked to be
-- strict, whether each of these calls came when nothing open rested on the resource, so that the C library
-- does not refuse it as busy. Logging, tracing and the goroutine that a client starts are not part of these models.
pub mod Dial
pub mod Connect
pub mod Listener
pub mod Leaks
pub mod DialLeaks
pub mod ConnectLeaks
pub mod ListenerLeaks
pub mod Accept
use libfabric_go.Base.{
  ℕ, String, Bool, true, false, ◌&&◌, ◌||◌, not, Option, none, some, List, [], ◌∷◌, ◌++◌, ◌==◌, map,
  if◌then◌else◌,
}
use libfabric_go.Base.Int.{ℤ, pos}
use libfabric_go.Capi.Errors.{GoError, wrapped, Result, ok, err}
use libfabric_go.Fi.Memory.{Domain}

pub data EndpointType : Type 0 where
  unspec msg dgram rdm : EndpointType

abbrev pub same_type : EndpointType → EndpointType → Bool
same_type unspec unspec = true
same_type msg msg = true
same_type dgram dgram = true
same_type rdm rdm = true
same_type _ _ = false

pub data Resource : Type 0 where
  discovery fabric domain queue event_queue endpoint vector passive : Resource
  listen_queue request : Resource

abbrev pub same_resource : Resource → Resource → Bool
same_resource discovery discovery = true
same_resource fabric fabric = true
same_resource domain domain = true
same_resource queue queue = true
same_resource event_queue event_queue = true
same_resource endpoint endpoint = true
same_resource vector vector = true
same_resource passive passive = true
same_resource listen_queue listen_queue = true
same_resource request request = true
same_resource _ _ = false

pub data Event : Type 0 where
  opened closed : Resource → Event

-- The calls whose success the C library decides.
pub data Call : Type 0 where
  discover open_fabric open_domain open_queue open_event_queue open_endpoint open_vector : Call
  open_passive bind_passive bind_queue bind_event_queue bind_vector enable register_address
        query_name :
      Call
  insert_service listen connects accepts handshake : Call

-- A descriptor that discovery found.
pub record Descriptor : Type 0 where
  pub endpoint : EndpointType
  pub inject_size : ℕ

-- The answers of the C library: which calls fail, what discovery finds, the domain that is opened, and
-- the addresses that it assigns.
pub record Provider : Type 0 where
  pub refuses : Call → Option GoError
  pub found : List Descriptor
  pub opened_domain : Domain
  pub own_address : ℕ
  pub own_name : List ℕ
  pub service_address : ℕ
  pub mr_local : ℕ

-- A step appends to the log and gives a value or an error.
abbrev pub Setup : Type 0 → Type 0
Setup A = List Event → List Event × Result A

infixl 5 ◌>>=◌ ◌>>◌
unfoldable pub ◌>>=◌ : {A B : Type 0} → Setup A → (A → Setup B) → Setup B
◌>>=◌ m f log = let (log', r) = m log in elim r [ ok a ↦ f a log' | err e ↦ (log', err e) ]

unfoldable pub ◌>>◌ : {B : Type 0} → Setup (Unit {0}) → Setup B → Setup B
unfolding ◌>>=◌
m >> k = m >>= λ _. k

unfoldable pub return : {A : Type 0} → A → Setup A
return a log = (log, ok a)

unfoldable pub fail : {A : Type 0} → GoError → Setup A
fail e log = (log, err e)

-- The answer to a call: `effects` on success; else Close is called on the listed resources, in their order.
unfoldable pub answered : List Event → List Resource → String → Option GoError → Setup (Unit {0})
answered effects cleanup text none log = (log ++ effects, ok tt)
answered effects cleanup text (some e) log = (log ++ map closed cleanup, err (wrapped text e))

-- A call that opens nothing.
unfoldable pub calls : Provider → Call → List Resource → String → Setup (Unit {0})
unfolding answered
calls p c cleanup text = answered [] cleanup text (p.refuses c)

-- A call whose error is passed on as it is.
unfoldable pub settled : List Resource → Option GoError → Setup (Unit {0})
settled cleanup none log = (log, ok tt)
settled cleanup (some e) log = (log ++ map closed cleanup, err e)

unfoldable pub settles : Provider → Call → List Resource → Setup (Unit {0})
unfolding settled
settles p c cleanup = settled cleanup (p.refuses c)

-- A call that opens a resource.
unfoldable pub opens : Provider → Call → Resource → List Resource → String → Setup (Unit {0})
unfolding answered
opens p c r cleanup text = answered (opened r ∷ []) cleanup text (p.refuses c)

-- `defer`: Close is called on the resource when the function returns, with a value or an error.
unfoldable pub deferred_close : {A : Type 0} → Resource → Setup A → Setup A
deferred_close r m log = let (log', a) = m log in (log' ++ closed r ∷ [], a)

-- The first may be bound to the second or opened in it: the C library may then refuse to close the second.
abbrev pub rests_on : Resource → Resource → Bool
rests_on endpoint r =
    not (same_resource r discovery || same_resource r endpoint || same_resource r request)
rests_on queue r = same_resource r domain || same_resource r fabric
rests_on vector r = same_resource r domain || same_resource r fabric
rests_on domain r = same_resource r fabric
rests_on event_queue r = same_resource r fabric
rests_on listen_queue r = same_resource r fabric
rests_on passive r = same_resource r listen_queue || same_resource r fabric
rests_on _ r = false

abbrev pub is_busy : Resource → List Resource → Bool
is_busy r [] = false
is_busy r (s ∷ rs) = rests_on s r || is_busy r rs

abbrev pub remove : Resource → List Resource → Option (List Resource)
remove r [] = none
remove r (s ∷ rs) =
    let rest = remove r rs in
    if same_resource s r then some rs else elim rest [ none ↦ none | some t ↦ some (s ∷ t) ]

-- The opened resources on which Close has not been called, after a log. None if it was called on one that was
-- not among them or, if `strict`, on one on which another of them rests.
abbrev pub live_from : Bool → Option (List Resource) → List Event → Option (List Resource)
live_from strict none log = none
live_from strict (some rs) [] = some rs
live_from strict (some rs) (opened r ∷ log) = live_from strict (some (r ∷ rs)) log
live_from strict (some rs) (closed r ∷ log) =
    live_from strict (if is_busy r rs && strict then none else remove r rs) log

abbrev pub live : Bool → List Event → Option (List Resource)
live strict = live_from strict (some [])
