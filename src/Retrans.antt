-- ===== src/Retrans.antt =====
-- lltc-strategy-service-sublayer-retrans-control.cpp (ndnSIM/ns-3/src/ndnSIM/NFD/daemon/fw):
-- retransmission control. `Events` keeps the tables of pending events; `Timers` has the tasks that
-- request a single capsule, `Multiple` those that request several, `Replies` the answers to requests,
-- `Arrivals` the handlers of retransmitted capsules and `Report` that of reports.
pub mod Events
pub mod Timers
pub mod Multiple
pub mod Replies
pub mod Arrivals
pub mod Report
