-- ===== src/Models.antt =====
-- The rows of the database (bot/models), and the queries that the program makes on a table.
pub mod Table
pub mod Kept
use lead_finder.Prelude.{ℕ, Bool, Option, List}
use lead_finder.Prelude.Int.{ℤ}
use lead_finder.Prelude.Text.{Text}
use lead_finder.Json.{Json}
use lead_finder.DateTime.{DateTime}

pub record User : Type 0 where
  pub telegram_id : ℕ
  pub username : Option Text
  pub services_description : Option Text
  pub subscription_type : Text
  pub subscription_expires_at : Option DateTime
  pub last_analysis_at : Option DateTime
  pub created_at : DateTime
  pub last_active_at : DateTime

pub record ProgramChat : Type 0 where
  pub id : ℕ
  pub chat_username : Text

-- A program with the rows of `chats`.
pub record Program : Type 0 where
  pub id : ℕ
  pub user_id : ℕ
  pub name : Text
  pub niche_description : Text
  pub min_score : ℤ
  pub max_leads_per_run : ℤ
  pub enrich : Bool
  pub schedule_time : Text
  pub auto_collect_enabled : Bool
  pub owner_chat_id : Option ℕ
  pub chats : List ProgramChat

pub record Lead : Type 0 where
  pub id : ℕ
  pub user_id : ℕ
  pub program_id : Option ℕ
  pub telegram_username : Text
  pub status : Text
  pub qualification_score : Json
  pub business_summary : Json
  pub pains_summary : Option Text
  pub solution_idea : Json
  pub recommended_message : Json
  pub raw_qualification_data : Json
  pub raw_llm_input : Json

-- `avg_intensity` is counted in hundredths.
pub record PainCluster : Type 0 where
  pub id : ℕ
  pub user_id : ℕ
  pub program_id : ℕ
  pub name : Text
  pub category : Text
  pub description : Text
  pub pain_count : ℕ
  pub avg_intensity : ℕ
  pub first_seen : Option DateTime
  pub last_seen : Option DateTime
  pub trend : Text
  pub post_generated : Bool

pub record Pain : Type 0 where
  pub id : ℕ
  pub user_id : ℕ
  pub program_id : ℕ
  pub text : Text
  pub original_quote : Text
  pub category : Text
  pub intensity : Text
  pub business_type : Option Text
  pub source_chat : Text
  pub source_message_id : ℕ
  pub source_message_link : Option Text
  pub source_user_id : Option ℕ
  pub source_username : Option Text
  pub message_date : Option DateTime
  pub cluster_id : Option ℤ
  pub used_in_post : Bool

pub record GeneratedPost : Type 0 where
  pub id : ℕ
  pub user_id : ℕ
  pub cluster_id : ℕ
  pub post_type : Text
  pub title : Text
  pub body : Text
  pub status : Text
  pub generated_at : DateTime
