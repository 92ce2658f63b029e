-- ===== src/Interface/Actions/Tests.antt =====
-- A client with two offers on the screen, who accepts one of them.
use my_build.Base.{◌≡◌, refl, true}
use my_build.Errors.{is_ok}
use my_build.Shared.Dates.{day_ms, utc_calendar_date}
use my_build.Common.Uuid.{is_uuid}
use my_build.Store.Queries.{list_queries-IsLawful}
use my_build.Orders.Transition.{run}
use my_build.Orders.Transition.Total.{named}
use my_build.Orders.Transition.Tests.{numbered, tables, house, chosen}
use my_build.Orders.View.{to_offer_dto}
use my_build.Orders.Detail.{offer_row}
use my_build.Interface.Actions.Agreement.{Click, request, shows, shows-run}

well_named :
    named (request Click.accepts house (to_offer_dto (offer_row numbered tables chosen))) ≡ true
unfolding is_uuid to_offer_dto
well_named = refl

shows-run_example :
    shows Click.accepts house.status
      (utc_calendar_date day_ms)
      (to_offer_dto (offer_row numbered tables chosen))
    ≡ is_ok (
        run numbered day_ms
          (request Click.accepts house (to_offer_dto (offer_row numbered tables chosen)))
          tables)
unfolding to_offer_dto
shows-run_example =
    shows-run numbered day_ms Click.accepts house chosen tables
      (list_queries-IsLawful (λ n. "notification")) well_named refl refl
