-- ===== src/Orders/Workflow/Tests.antt =====
-- An order in work whose company takes files and hands the work in.
use my_build.Base.{ℕ, ◌*◌, ◌≡◌, refl, String, String_eq, none, some, List, [], ◌∷◌, arith}
use my_build.Errors.{ok, ok_of}
use my_build.Shared.Enums.{OrderStatus, OfferStatus, OrderCategory, ObjectType, FileOwnerType}
use my_build.Shared.Dates.{day_ms}
use my_build.Shared.Orders.{can_upload_work}
use my_build.Shared.State.{can_transition}
use my_build.Common.Uuid.{is_uuid}
use my_build.Store.Tables.{Order, Offer, OrderFile, Db}
use my_build.Store.Queries.{list_queries}
use my_build.Store.Notices.{drop_superseded_notifications, create_notifications}
use my_build.Orders.Notification.{offer_key}
use my_build.Orders.Machine.Handlers.{handler_for, work_submitted}
use my_build.Orders.Machine.{transition}
use my_build.Orders.Transition.Types.{AppliedTransition}
use my_build.Orders.Transition.{
  lock_order, resolve_offer, build_event, conclude, decide_on, run_locked, run,
}
use my_build.Orders.Transition.Write.{apply_effects}
use my_build.Orders.Transition.Tests.{order_id, chosen_id}
use my_build.Orders.Workflow.{
  OpenSubmission, open_submission, find_open_submission, open_or_create, create_submission,
  submit_work_in, submit_open, close_submission, update_submission,
}
use my_build.Orders.Workflow.Spec.{Act, Step, IsConsistent, view, spec_all}
use my_build.Orders.Workflow.Refinement.{Steps, steps-Refines}

abbrev pub submission_id : String
submission_id = "00000000-0000-4000-8000-00000000000b"

abbrev new_id : ℕ → String
new_id n = submission_id

abbrev pub in_work : Order
in_work = record {
  id = order_id;
  order_number = 7;
  client_id = "client";
  title = "Дом";
  category = OrderCategory.plan_creation;
  object_type = ObjectType.house;
  description = "";
  address = "";
  square_meters = 10000;
  verified_square_meters = none;
  client_budget = none;
  desired_start_date = none;
  price = some "1000";
  deadline = some (20 * day_ms);
  status = OrderStatus.in_progress;
  client_completion_comment = none;
  correction_comment = none;
  created_at = 0;
  updated_at = 0;
}

abbrev executor : Offer
executor = record {
  id = chosen_id;
  order_id = order_id;
  company_id = "company";
  status = OfferStatus.accepted;
  comment = none;
  proposed_price = "1000";
  proposed_deadline = 20 * day_ms;
  created_at = 0;
  edited_at = none;
  updated_at = 0;
  rejection_count = 0;
}

abbrev plan : OrderFile
plan = record {
  id = "file";
  order_id = order_id;
  storage_key = "key";
  owner_type = FileOwnerType.company;
  submission_round = 1;
  file_hash = "hash";
  original_name = "plan.pdf";
  mime_type = "application/pdf";
  size_bytes = 1;
  created_at = 0;
}

abbrev pub working : Db
working = record {
  users = [];
  orders = in_work ∷ [];
  submissions = [];
  files = plan ∷ [];
  offers = executor ∷ [];
  notifications = [];
  issued = 0;
}

consistent : IsConsistent order_id working
consistent = record {
  numbered = record {
    distinct = λ id. omega arith;
    one_open = omega arith;
    numbered = λ k. ground arith;
    newest = refl;
  };
  idle = λ o e f. refl;
}

abbrev opened : OpenSubmission
opened = record { id = submission_id; round = 1; order = in_work }

abbrev pub with_draft : Db
with_draft = record working {
  submissions =
      (record {
        id = submission_id;
        order_id = order_id;
        round = 1;
        comment = "готово";
        submitted_at = none;
        created_at = day_ms;
      })
      ∷ [];
  issued = 1;
}

opening :
    open_submission (list_queries new_id) day_ms order_id "готово" working ≡ ok (opened, with_draft)
unfolding open_submission lock_order find_open_submission open_or_create create_submission is_uuid
    can_upload_work
opening = refl

handed_in :
    (r : AppliedTransition × Db) × (submit_work_in (list_queries new_id) day_ms order_id with_draft
      ≡ ok r)
unfolding lock_order find_open_submission is_uuid submit_work_in submit_open close_submission
    update_submission run run_locked decide_on conclude resolve_offer build_event transition
    can_transition handler_for work_submitted apply_effects drop_superseded_notifications
    create_notifications offer_key
handed_in = ok_of (submit_work_in (list_queries new_id) day_ms order_id with_draft) refl

abbrev acts : List Act
acts = Act.takes "готово" opened.round ∷ Act.submits ∷ []

steps : Steps new_id order_id acts working handed_in.0.1
steps =
    Steps.and_then (Act.takes "готово" opened.round) (Act.submits ∷ []) working with_draft
      handed_in.0.1 (Step.files_taken day_ms "готово" opened working with_draft refl opening)
      (Steps.and_then Act.submits [] with_draft handed_in.0.1 handed_in.0.1
        (Step.work_sent day_ms handed_in.0.0 with_draft handed_in.0.1 handed_in.1)
        (Steps.none_left handed_in.0.1))

steps-Refines_example :
    IsConsistent order_id handed_in.0.1
    × (spec_all acts (view order_id working) ≡ some (view order_id handed_in.0.1))
steps-Refines_example = steps-Refines new_id order_id acts working handed_in.0.1 steps consistent
