-- ===== src/DateFilters.antt =====
-- common/services/date-filter.service.ts and common/dto/date-filter.dto.ts.
pub mod Texts
pub mod Calendar
pub mod Conditions
mod Tests
