-- ===== src/App.antt =====
-- src/rtp_rtcp/app.cc and src/rtp_rtcp/app.h: the packets of RTCP that an application defines.
pub mod Defs
pub mod Written
