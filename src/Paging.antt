-- ===== src/Paging.antt =====
-- safrochain_api_indexeur/src/common/utils/pagination.util.ts and common/dto/pagination.dto.ts:
-- how a request's page, limit and offset become a window of rows, and the `meta` of an answer.
pub mod Params
pub mod Meta
pub mod Windows
pub mod Offsets
pub mod Query
pub mod Cursor
mod Tests
