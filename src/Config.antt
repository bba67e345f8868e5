-- ===== src/Config.antt =====
-- The configuration file: the helpers of parser.c, the security policies of sp4.c and sp6.c, the
-- routes of rt.c, the neighbours of parser.c, and the search for an SPI in sa.c, sp4.c and sp6.c.
pub mod Token
pub mod Range
pub mod Search
pub mod Resolve
pub mod Rule
pub mod Policies
pub mod Present
pub mod Inline
pub mod Neighbour
pub mod Routes
