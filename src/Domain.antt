-- ===== src/Domain.antt =====
-- The domain and identity contracts: packages/actor, subject, tenant-reference,
-- aggregate-reference, intent, event, operation and operation-result.
-- Payloads, data and reasons, which the code only passes on, are texts.
mod Results
pub use Results.{
  Event, OperationResult, success, committed_rejection, rolled_back_rejection, events,
}
unfoldable pub use Results.{
  is_successful_operation_result, is_operation_rejection, is_committed_operation_rejection,
  is_rolled_back_operation_rejection,
}
use event_driven_platform.Prelude.{ℕ, Option, Text, text}

-- TenantReference, AggregateReference and Subject
pub record Reference : Type 0 where
  pub type : Text
  pub id : Text

pub data ActorType : Type 0 where
  user service system scheduler : ActorType

pub record ActorOrigin : Type 0 where
  pub ip_address : Option Text
  pub country_code : Option Text
  pub region : Option Text
  pub city : Option Text
  pub latitude : Option Text
  pub longitude : Option Text
  pub timezone : Option Text
  pub environment : Option Text
  pub host : Option Text
  pub instance_name : Option Text

pub record Actor : Type 0 where
  pub type : ActorType
  pub id : Text
  pub origin : ActorOrigin

pub record Intent : Type 0 where
  pub id : Text
  pub key : Text

pub record Operation : Type 0 where
  pub name : Text
  pub schema_version : ℕ
  pub intent : Intent
  pub actor : Actor
  pub tenant : Reference
  pub subject : Reference
  pub aggregate : Reference
  pub payload : Text

-- the text of an actor type
unfoldable pub actor_type_text : ActorType → Text
unfolding text
actor_type_text user = text "user"
actor_type_text service = text "service"
actor_type_text system = text "system"
actor_type_text scheduler = text "scheduler"
