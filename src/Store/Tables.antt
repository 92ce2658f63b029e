-- ===== src/Store/Tables.antt =====
-- backend/prisma/schema.prisma: the rows of the tables that the modelled code reads and writes. A
-- Decimal stands as its printed text, and an area as its number of hundredths of a square metre.
use my_build.Base.{ℕ, String, Bool, List, Option}
use my_build.Shared.Enums.{
  Role, OrderStatus, OfferStatus, FileOwnerType, NotificationType, OrderCategory, ObjectType,
}
use my_build.Shared.Dates.{Date}

pub record User : Type 0 where
  pub id : String
  pub role : Role
  pub first_name : String
  pub last_name : Option String
  pub company_name : Option String
  pub email : String
  pub phone : String
  pub city : Option String
  pub country : Option String
  pub email_verified_at : Option Date
  pub created_at : Date
  pub updated_at : Date

pub record Order : Type 0 where
  pub id : String
  pub order_number : ℕ
  pub client_id : String
  pub title : String
  pub category : OrderCategory
  pub object_type : ObjectType
  pub description : String
  pub address : String
  pub square_meters : ℕ
  pub verified_square_meters : Option ℕ
  pub client_budget : Option String
  pub desired_start_date : Option Date
  pub price : Option String
  pub deadline : Option Date
  pub status : OrderStatus
  pub client_completion_comment : Option String
  pub correction_comment : Option String
  pub created_at : Date
  pub updated_at : Date

pub record OrderSubmission : Type 0 where
  pub id : String
  pub order_id : String
  pub round : ℕ
  pub comment : String
  pub submitted_at : Option Date
  pub created_at : Date

pub record OrderFile : Type 0 where
  pub id : String
  pub order_id : String
  pub storage_key : String
  pub owner_type : FileOwnerType
  pub submission_round : ℕ
  pub file_hash : String
  pub original_name : String
  pub mime_type : String
  pub size_bytes : ℕ
  pub created_at : Date

pub record Offer : Type 0 where
  pub id : String
  pub order_id : String
  pub company_id : String
  pub status : OfferStatus
  pub comment : Option String
  pub proposed_price : String
  pub proposed_deadline : Date
  pub created_at : Date
  pub edited_at : Option Date
  pub updated_at : Date
  pub rejection_count : ℕ

pub record Notification : Type 0 where
  pub id : String
  pub user_id : String
  pub type : NotificationType
  pub order_id : Option String
  pub title : String
  pub body : Option String
  pub is_read : Bool
  pub collapse_key : Option String
  pub created_at : Date

-- The tables, each in the order in which the database returns its rows, and how many identifiers it
-- has given out.
pub record Db : Type 0 where
  pub users : List User
  pub orders : List Order
  pub submissions : List OrderSubmission
  pub files : List OrderFile
  pub offers : List Offer
  pub notifications : List Notification
  pub issued : ℕ
