-- ===== src/Ink/Dispatch.antt =====
-- libink/dispatch.c: objects, their methods, and the state of a connection.
pub mod Send
pub mod Park
pub mod Call
pub mod Message
pub mod Outbound
pub mod Events
pub mod Slots
pub mod Sent
pub mod Signal
pub mod Laws
pub mod Handlers
pub mod Kept
pub mod Lives
pub mod Reading
pub mod Authorised
pub mod Tokens
pub mod Once
pub mod Callbacks
pub mod Serials
pub mod Working
pub mod Answers
mod Examples
use finit.Prelude.{
  ℕ, ◌+◌, Bool, true, false, List, [], ◌∷◌, ◌++◌, length, leb, Option, none, some, if◌then◌else◌,
}
use finit.Ink.Match.{Rule, str_same}
use finit.Ink.Auth.{AuthState}
use finit.Ink.Proto.{Msg}

-- What a handler sees of its call: link_call_uid(), the message and link_call_resumed().
pub record CallView : Type 0 where
  pub uid : ℕ
  pub incoming : Msg
  pub resumed : Bool

-- A handler, by what it asks of libink; it goes on with whether that has worked. A reply comes with
-- the body that the handler writes, `none` if that overflows; `done true` is a negative return.
pub data Script : Type 0 where
  done : Bool → Script
  reply : Option (List ℕ) → (Bool → Script) → Script
  reply_error : List ℕ → Option (List ℕ) → (Bool → Script) → Script
  park_call : (Bool → Script) → Script

-- `link_method_t`; `privileged` is LINK_METHOD_PRIVILEGED.
pub record Method : Type 0 where
  pub name : List ℕ
  pub in_sig : Option (List ℕ)
  pub out_sig : Option (List ℕ)
  pub privileged : Bool
  pub handler : CallView → Script

pub record Vtable : Type 0 where
  pub interface : List ℕ
  pub methods : List Method

-- `struct link_object`
pub record Object : Type 0 where
  pub path : List ℕ
  pub vtables : List Vtable

-- What the embedder's resolver answers: 0 with a uid, 1, -1, or what is taken for CALLER_UID_BUSY.
pub data Resolution : Type 0 where
  known : ℕ → Resolution
  later unknown busy : Resolution

-- `struct link_server`, as far as dispatch reads it.
pub record Server : Type 0 where
  pub objects : List Object
  pub uid_resolver : Option (List ℕ → ℕ → Resolution)
  pub authorizer : Option (ℕ → List ℕ → Bool)

-- `struct link_parked`; a slot is free if its token is zero.
pub record Parked : Type 0 where
  pub tok : ℕ
  pub stamp : ℕ
  pub uid : ℕ
  pub buf : List ℕ

-- A call that libink has made itself; `cb` stands for the callback with its userdata.
pub record Pending : Type 0 where
  pub used : Bool
  pub serial : ℕ
  pub stamp : ℕ
  pub cb : Option ℕ

-- `struct link_bus`
pub record Bus : Type 0 where
  pub parked : List Parked
  pub next_tok : ℕ
  pub pending : List Pending

-- A handler that has been run: for whom, and whether its method is privileged.
pub record Run : Type 0 where
  pub uid : ℕ
  pub privileged : Bool

-- A callback that has been run, with the reply or with NULL.
pub record Delivered : Type 0 where
  pub cb : ℕ
  pub answer : Option Msg

-- `struct link_connection`, as far as dispatch is concerned; `now` is __now_ms(), `wire` lists the
-- buffers that have been written as a whole, `ran` the handlers and `delivered` the callbacks that
-- have been run, and `parks` counts the calls that have been parked.
pub record Connection : Type 0 where
  pub peer_uid : ℕ
  pub peer_groups : List ℕ
  pub broker : Bool
  pub auth : AuthState
  pub matches : List Rule
  pub next_serial : ℕ
  pub bus : Option Bus
  pub now : ℕ
  pub wire : List (List ℕ)
  pub ran : List Run
  pub delivered : List Delivered
  pub parks : ℕ

-- LINK_PATH_MAX
abbrev pub path_max : ℕ
path_max = 108

unfoldable pub find_object : List Object → List ℕ → Option Object
find_object [] path = none
find_object (o ∷ os) path = if str_same o.path path then some o else find_object os path

-- `link_server_remove_object`; ENOENT is `none`.
unfoldable pub remove_object : List Object → List ℕ → Option (List Object)
remove_object [] path = none
remove_object (o ∷ os) path =
    let rest = remove_object os path in
    if str_same o.path path
    then some os
    else elim rest [ none ↦ none | some left ↦ some (o ∷ left) ]

-- The object at the path gets the table, behind those that it has.
abbrev pub with_vtable : List Object → List ℕ → Vtable → List Object
with_vtable [] path vt = record { path = path; vtables = vt ∷ [] } ∷ []
with_vtable (o ∷ os) path vt =
    let rest = with_vtable os path vt in
    if str_same o.path path then record o { vtables = o.vtables ++ vt ∷ [] } ∷ os else o ∷ rest

-- `link_server_add_object`; EINVAL and ENAMETOOLONG are `none`.
unfoldable pub add_object : List Object → List ℕ → Vtable → Option (List Object)
add_object os [] vt = none
add_object os (c ∷ path) vt =
    if leb path_max (length (c ∷ path)) then none else some (with_vtable os (c ∷ path) vt)

unfoldable pub find_method : List Method → List ℕ → Option Method
find_method [] name = none
find_method (m ∷ ms) name = if str_same m.name name then some m else find_method ms name

-- `resolve` with an interface: only the first table of that name counts.
unfoldable pub resolve_in : List Vtable → List ℕ → List ℕ → Option Method
resolve_in [] iface member = none
resolve_in (vt ∷ vts) iface member =
    let rest = resolve_in vts iface member in
    if str_same vt.interface iface then find_method vt.methods member else rest

-- `resolve` without one: the first method of that name in any table.
unfoldable pub resolve_any : List Vtable → List ℕ → Option Method
resolve_any [] member = none
resolve_any (vt ∷ vts) member =
    let rest = resolve_any vts member in
    elim (find_method vt.methods member) [ some m ↦ some m | none ↦ rest ]

unfoldable pub resolve : Object → Option (List ℕ) → List ℕ → Option Method
resolve o (some iface) member = resolve_in o.vtables iface member
resolve o none member = resolve_any o.vtables member
