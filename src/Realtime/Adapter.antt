-- ===== src/Realtime/Adapter.antt =====
-- The rooms of the sockets, which the library of sockets keeps: what the gateway asks of them, and the
-- laws by which their documentation describes it. The program does not implement them.
use my_build.Base.{
  String, Bool, true, false, not, ◌&&◌, ◌||◌, ◌≡◌, refl, ap, subst, or_else, List, [], ◌∷◌, Option,
  some, any, keep, arith, ◌==◌, String_eq,
}
use text.Mathlib.TextEquality.{eq_iff}
use my_build.Realtime.Events.{Room}

abbrev pub same_room : Room → Room → Bool
same_room (Room.of_user a) (Room.of_user b) = a == b
same_room (Room.of_order a) (Room.of_order b) = a == b
same_room Room.company_feed Room.company_feed = true
same_room _ _ = false

-- A socket is named by its identifier. An entry that fails is null.
pub record Rooms (R : Type 0) : Type 0 where
  pub join : String → Room → R → Option R
  pub leave : String → Room → R → R
  -- `in(members).socketsLeave(room)`.
  pub sockets_leave : Room → Room → R → R
  pub is_in : R → String → Room → Bool

pub record IsLawful {R : Type 0} (q : Rooms R) : Type 0 where
  pub is_in-join :
      (socket other : String) (room there : Room) (r after : R)
      → q.join socket room r ≡ some after
      → q.is_in after other there
        ≡ q.is_in r other there || (socket == other && same_room room there)
  pub is_in-leave :
      (socket other : String) (room there : Room) (r : R)
      → q.is_in (q.leave socket room r) other there
        ≡ q.is_in r other there && not (socket == other && same_room room there)
  pub is_in-sockets_leave :
      (members room there : Room) (other : String) (r : R)
      → q.is_in (q.sockets_leave members room r) other there
        ≡ q.is_in r other there && not (same_room room there && q.is_in r other members)

-- Rooms as a list of their members meet the laws.
abbrev pub is_place : String → Room → String × Room → Bool
is_place socket room place = socket == place.0 && same_room room place.1

abbrev pub in_list : List (String × Room) → String → Room → Bool
in_list r socket room = any (is_place socket room) r

abbrev pub list_rooms : Rooms (List (String × Room))
list_rooms = record {
  join = λ socket room r. some ((socket, room) ∷ r);
  leave = λ socket room r. keep (λ place. not (is_place socket room place)) r;
  sockets_leave =
      λ members room r. keep (λ place. not (same_room room place.1 && in_list r place.0 members)) r;
  is_in = in_list;
}

same_room_refl : (a : Room) → same_room a a ≡ true
same_room_refl (Room.of_user a) = ground (arith, eq_iff a a)
same_room_refl (Room.of_order a) = ground (arith, eq_iff a a)
same_room_refl Room.company_feed = refl

pub same_room-eq : (a b : Room) → same_room a b ≡ true → a ≡ b
same_room-eq (Room.of_user a) (Room.of_user b) h = ground (arith, eq_iff a b)
same_room-eq (Room.of_user a) (Room.of_order b) h = cc
same_room-eq (Room.of_user a) Room.company_feed h = cc
same_room-eq (Room.of_order a) (Room.of_user b) h = cc
same_room-eq (Room.of_order a) (Room.of_order b) h = ground (arith, eq_iff a b)
same_room-eq (Room.of_order a) Room.company_feed h = cc
same_room-eq Room.company_feed (Room.of_user b) h = cc
same_room-eq Room.company_feed (Room.of_order b) h = cc
same_room-eq Room.company_feed Room.company_feed h = refl

same_room-true : (a b : Room) → a ≡ b → same_room a b ≡ true
same_room-true a b h = subst (λ c. same_room a c ≡ true) h (same_room_refl a)

in_list-keep :
    (p : String × Room → Bool) (other : String) (there : Room) (r : List (String × Room))
    → in_list (keep p r) other there ≡ in_list r other there && p (other, there)
in_list-keep p other there [] = refl
in_list-keep p other there ((socket, room) ∷ r) =
    ground
      (arith, in_list-keep p other there r, eq_iff other socket, same_room-eq there room, by_place)
  where
    by_place : other ≡ socket → there ≡ room → p (socket, room) ≡ p (other, there)
    by_place e f = cc

pub list_rooms-IsLawful : IsLawful list_rooms
list_rooms-IsLawful = record {
  is_in-join = λ socket other room there r after h. ground (
    arith,
    ap (λ (m : Option (List (String × Room))). any (is_place other there) (or_else m [])) h,
    eq_iff socket other,
    eq_iff other socket,
    same_room-eq room there,
    same_room-eq there room,
    same_room-true room there,
    same_room-true there room,
  );
  is_in-leave = λ socket other room there r.
      in_list-keep (λ place. not (is_place socket room place)) other there r;
  is_in-sockets_leave = λ members room there other r.
      in_list-keep (λ place. not (same_room room place.1 && in_list r place.0 members)) other there
        r;
}
