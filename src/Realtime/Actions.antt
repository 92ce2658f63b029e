-- ===== src/Realtime/Actions.antt =====
-- backend/src/modules/realtime/realtime.service.ts, and what a route is made of: transactions that are
-- committed, readings, and broadcasts that leave between them.
use my_build.Base.{Bool, true, false, List, [], ◌∷◌, ◌++◌, Option, none, some, String}
use my_build.Errors.{Result, ok, err}
use my_build.Store.Tables.{Db, Notification}
use my_build.Store.Tx.{Tx, transaction}
use my_build.Orders.Transition.Types.{AppliedTransition}
use my_build.Realtime.Events.{
  RealtimeBroadcast, SocketEvent, order_created_broadcast, transition_broadcast,
  order_update_broadcast, order_deleted_broadcast,
}

-- What leaves the tables and is not rolled back: a broadcast to the sockets, an object that is put
-- into the storage of files, objects that are taken out of it.
pub data Effect : Type 0 where
  tells : RealtimeBroadcast → Effect
  stores : String → Effect
  removes : List String → Effect

-- What a route has answered, what it has left of the tables, and its other effects in their order.
pub record Outcome (A : Type 0) : Type 0 where
  pub answer : Result A
  pub tables : Db
  pub effects : List Effect

abbrev pub Action : Type 0 → Type 0
Action A = Db → Outcome A

abbrev pub then_do : {A B : Type 0} → Result A → Db → List Effect → (A → Action B) → Outcome B
then_do (err e) db effects f = record { answer = err e; tables = db; effects = effects }
then_do (ok a) db effects f =
    let rest = f a db in
    record { answer = rest.answer; tables = rest.tables; effects = effects ++ rest.effects }

infixl 5 ◌>>=◌ ◌>>◌
abbrev pub ◌>>=◌ : {A B : Type 0} → Action A → (A → Action B) → Action B
◌>>=◌ m f db = let first = m db in then_do first.answer first.tables first.effects f

abbrev pub ◌>>◌ : {B : Type 0} → Action (Unit {0}) → Action B → Action B
m >> k = m >>= λ _. k

abbrev pub return : {A : Type 0} → A → Action A
return a db = record { answer = ok a; tables = db; effects = [] }

-- A step outside every transaction: a guard, or what is computed from the request.
abbrev pub lift : {A : Type 0} → Result A → Action A
lift r db = record { answer = r; tables = db; effects = [] }

-- `orderTransaction`: what throws is rolled back.
abbrev pub commit : {A : Type 0} → Tx A → Action A
commit t db =
    let done = transaction t db in record { answer = done.0; tables = done.1; effects = [] }

-- Queries outside every transaction that only read.
abbrev pub look : {A : Type 0} → Tx A → Action A
look t db = commit t db

abbrev pub effect : Effect → Action (Unit {0})
effect e db = record { answer = ok tt; tables = db; effects = e ∷ [] }

-- `try { … } catch`: what is thrown is a value.
abbrev pub attempt : {A : Type 0} → Action A → Action (Result A)
attempt m db =
    let done = m db in
    record { answer = ok done.answer; tables = done.tables; effects = done.effects }

-- `dispatch`: a broadcast with nothing in it is not sent.
unfoldable pub dispatch : RealtimeBroadcast → Action (Unit {0})
dispatch broadcast db = record {
  answer = ok tt;
  tables = db;
  effects = sent broadcast.messages broadcast.evictions;
}
  where
    sent : {M E : Type 0} → List M → List E → List Effect
    sent [] [] = []
    sent _ _ = Effect.tells broadcast ∷ []

unfoldable pub order_created : String → Action (Unit {0})
unfolding dispatch
order_created order_id = dispatch (order_created_broadcast order_id)

-- `offerExisted === undefined ? … : offerExisted ? …`.
abbrev pub offer_event : Option Bool → Option SocketEvent
offer_event none = none
offer_event (some true) = some SocketEvent.offer_updated
offer_event (some false) = some SocketEvent.offer_created

unfoldable pub transition_applied : AppliedTransition → Option Bool → Action (Unit {0})
unfolding dispatch
transition_applied applied offer_existed =
    dispatch (transition_broadcast applied (offer_event offer_existed))

unfoldable pub order_files_updated : String → String → List Notification → Action (Unit {0})
unfolding dispatch
order_files_updated order_id client_id notifications =
    dispatch
      (order_update_broadcast SocketEvent.order_files_updated order_id client_id notifications)

unfoldable pub order_area_verified : String → String → List Notification → Action (Unit {0})
unfolding dispatch
order_area_verified order_id client_id notifications =
    dispatch
      (order_update_broadcast SocketEvent.order_area_verified order_id client_id notifications)

unfoldable pub order_deleted : String → List Notification → Action (Unit {0})
unfolding dispatch
order_deleted order_id notifications = dispatch (order_deleted_broadcast order_id notifications)
