-- ===== src/Lib.antt =====
-- An IPsec security gateway: the data path of ipsec-secgw, a program on DPDK that protects the
-- traffic between its unprotected and its protected ports.
--
-- A packet arrives on a port. is_unprotected_port says whether it is inbound or outbound. In event
-- mode (ipsec_worker.c) a worker takes single packets or vectors of packets, checks them against
-- the security policies (ACL tables), finds or checks the security association (SA), and forwards
-- them by the routing tables; the device does the cryptography inline. In poll mode
-- (ipsec-secgw.c) a core takes bursts, looks the SAs up (sad.h, sa.c), and hands the packets to
-- the crypto devices, either by groups of one SA (ipsec_process.c) or on the legacy path (ipsec.c);
-- packets that come back are routed and sent. ipip.h builds and removes tunnel headers, and
-- esp.c pads the payload.
--
-- Packet: struct ipsec_sa and struct sa_ctx (ipsec.h), the mbuf, and free_pkts (ipsec-secgw.h).
--   An mbuf is a record; its octets are a function of the offset, its flags are Booleans, and its
--   `id` is its address, by which Packet.Tally counts packets.
-- CryptoQueue: struct cdev_qp with enqueue_cop_burst and enqueue_cop (ipsec.c), enqueue_cop_bulk,
--   cqp_dequeue and ctx_dequeue (ipsec_process.c). An op stands for its packet.
-- SaGroup: sa_group (ipsec_process.c).
-- IpsecLib, Process: ipsec_process and ipsec_cqp_process with their helpers (ipsec_process.c), over
--   librte_ipsec. `State` is the queues, the device, the SAs by address, and the traffic.
-- Sad: sad_lookup and its cache (sad.h), and ipsec_sad_add (sad.c, Sad.Add).
-- SaLookup: ipsec_mask_saptr (ipsec.h), inbound_sa_check, inbound_sa_lookup and outbound_sa_lookup
--   (sa.c). A pointer to an SA is a number whose lowest bit asks for the fallback session.
-- Legacy: ipsec_enqueue, ipsec_inline_dequeue, ipsec_dequeue, ipsec_inbound and ipsec_outbound
--   (ipsec.c).
-- Unprotected: is_unprotected_port (ipsec-secgw.h).
-- Worker: ipsec_worker.c. Classify, Policy and Route are its helpers, Event the handlers of a
--   single event, Bulk the checks of a burst, and Vector the handlers of event vectors.
-- Poll: inbound_sp_sa, outbound_spd_lookup, split46_traffic and the four process_pkts functions
--   (Poll, Poll.Handlers), and routing and sending (Poll.Send), of ipsec-secgw.c.
-- EventHelper: event_helper.c. Its default configuration (Cores, Devices, Links, Adapters), its
--   validation (Validate), the calls that set the devices up and release them (Setup, Teardown,
--   Startup), and the worker and links of a core (Launch).
-- Config: the configuration file. Token, Range and Neighbour are helpers of parser.c, Rule and
--   Policies the security policies of sp4.c and sp6.c, Search and Resolve the SPIs of their SAs
--   (sa.c), Present the rule of an SPI, Inline the addresses that an SA takes from it (sa.c), and
--   Routes rt.c.
-- Poll.Ike: filter_ike_packets, and Lcores: the queues of the cores and the checks of their
--   parameters, both of ipsec-secgw.c.
-- Ipip: ipip.h.
-- Esp: the trailer and the lengths of esp.c, on the octets from the payload on.
-- Prelude has what the modules share; Tests has concrete inputs.
--
-- State is passed explicitly. A loop over an array is a recursion on a list, with the packets that
-- stay and those that leave as lists of their own: the code moves packets to the front of the array
-- that it reads, never past its read index. Numbers are natural numbers; 8, 16 and 32-bit results
-- are cut where the code cuts them, and counters of statistics are taken not to overflow. The loop
-- of enqueue_cop_bulk runs on fuel, one round for each op and one more, which is enough since
-- every round takes at least one op from a buffer with room. ctx_dequeue and ipsec_dequeue run at
-- most one round for each queue. The loops of eh_get_next_eth_core and eh_get_next_active_core run at
-- most one round for each core and one more. bsearch runs at most one round for each entry and one
-- more. The arithmetic on IPv4 checksums is that of a little-endian processor. The
-- adapters of the event mode have at most 16 connections.
--
-- Parameters: the devices (a burst may take any number of its packets), librte_ipsec, the ACL, LPM
-- and SAD tables of DPDK, fragmentation, the transforms of esp.c, the
-- creation of sessions, the kernel's interface, the event device library, inet_pton and strtoul.
-- Where the code indexes an array without a test, the model drops the packet past its end.
--
-- Not modelled: the headers and the crypto ops of esp.c; the parsing of SAs and flows (sa.c,
-- flow.c), and the creation and printing of the tables (sp4.c, sp6.c, rt.c); the set-up of the
-- Ethernet and crypto devices (most of ipsec-secgw.c), which is calls of DPDK; the endless loops of
-- the workers and of the cores that run the services of adapters; the printing of configurations;
-- and the monitoring under ngtl/, which is input and output.
pub mod Prelude
pub mod Packet
pub mod IpsecLib
pub mod Ipip
pub mod Esp
pub mod Poll
pub mod Legacy
pub mod Process
pub mod CryptoQueue
pub mod SaGroup
pub mod SaLookup
pub mod Sad
pub mod Unprotected
pub mod Worker
pub mod EventHelper
pub mod Config
pub mod Lcores
mod Tests
