-- ===== src/Api/Types.antt =====
-- The records of admin/front/src/shared/types.ts. A string is a `Text`, `number | null` an option.
use split_proxy.Base.{ℕ, Bool, Text, Option, List}

-- `is_superuser` is declared a string; the backend sends a Boolean, and the pages only test it.
pub record User : Type 0 where
  pub id : ℕ
  pub username : Text
  pub password : Text
  pub created_at : ℕ
  pub updated_at : ℕ
  pub is_superuser : Bool

pub record UserInput : Type 0 where
  pub username : Text
  pub password : Text

pub record ProxyItem : Type 0 where
  pub id : ℕ
  pub username : Text
  pub password : Text
  pub created_at : ℕ
  pub updated_at : ℕ

pub record ProxyInput : Type 0 where
  pub username : Text
  pub password : Text

pub record GroupItem : Type 0 where
  pub id : ℕ
  pub group_name : Text
  pub workers : ℕ
  pub online : ℕ
  pub offline : ℕ
  pub created_at : ℕ
  pub updated_at : ℕ

pub record GroupInput : Type 0 where
  pub group_name : Text

pub record WorkerItem : Type 0 where
  pub guid : Text
  pub ip_address : Text
  pub online : Bool
  pub group : Option ℕ
  pub created_at : ℕ
  pub updated_at : ℕ

pub record DomainRule : Type 0 where
  pub pattern : Text
  pub group : Option ℕ

pub record CidrRule : Type 0 where
  pub cidr : Text
  pub worker_group : Option ℕ

pub record DefaultRoute : Type 0 where
  pub worker_group : ℕ

pub record AppConfig : Type 0 where
  pub default_group_name : Text

-- `PaginatedDomainList` and its like; no page reads `next` and `previous`.
pub record Paginated (A : Type 0) : Type 0 where
  pub count : ℕ
  pub next : Option Text
  pub previous : Option Text
  pub results : List A
