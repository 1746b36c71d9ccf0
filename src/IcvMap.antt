-- ===== src/IcvMap.antt =====
-- modules/common/ccsimics/icv_map.h: the sparse map from ICV indices to ICVs, with its two levels of
-- pages. The map of pages is a function from page numbers; a page is an array and the number of its
-- entries other than zero, an unsigned 32-bit integer.
pub mod Page
pub mod Counting
pub mod Sparse
mod Tests
