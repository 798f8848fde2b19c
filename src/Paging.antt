-- ===== src/Paging.antt =====
-- The pages of lists, of packages/contracts/proto/common.proto and of the controllers of
-- apps/sender and apps/audience, which treat them alike.
use email_platform_services.Common.{ℕ, Option, none, some, List, map}

-- `PaginationRequest` and `PaginationMeta` of common.proto.
pub record PaginationRequest : Type 0 where
  pub page : ℕ
  pub limit : ℕ

pub record PaginationMeta : Type 0 where
  pub total : ℕ
  pub page : ℕ
  pub limit : ℕ
  pub pages : ℕ

-- A page of results, of any kind.
pub record PageOf (A : Type 0) : Type 0 where
  pub items : List A
  pub total : ℕ
  pub page : ℕ
  pub limit : ℕ
  pub pages : ℕ

-- A list message.
pub record ListOf (A : Type 0) : Type 0 where
  pub items : List A
  pub pagination : Option PaginationMeta

abbrev pub default_page : ℕ
default_page = 1

abbrev pub default_limit : ℕ
default_limit = 20

-- `req.pagination?.page ?? PAGINATION_DEFAULTS.PAGE`.
unfoldable pub page_of : Option PaginationRequest → ℕ
page_of none = default_page
page_of (some pagination) = pagination.page

unfoldable pub limit_of : Option PaginationRequest → ℕ
limit_of none = default_limit
limit_of (some pagination) = pagination.limit

-- The `pagination` of a list reply.
unfoldable pub meta_of : {A : Type 0} → PageOf A → PaginationMeta
meta_of result = record {
  total = result.total;
  page = result.page;
  limit = result.limit;
  pages = result.pages;
}

unfoldable pub list_reply : {A B : Type 0} → (A → B) → PageOf A → ListOf B
unfolding meta_of
list_reply reply result = record {
  items = map reply result.items;
  pagination = some (meta_of result);
}
