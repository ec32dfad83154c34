-- ===== src/Lib.antt =====
-- Verification library of ABTRDA3, a low-latency Ethernet benchmark with several kernel-bypass
-- backends.
--
-- The program. A sender thread stamps frames with a sequence number and a time and commits them to
-- a transmit ring; a receiver thread polls a receive ring, checks the header, passes the
-- sequence number through a gate, and pushes the latency to a queue; a histogram thread drains the
-- queue until an end marker. The rings are backends: the polled I210 driver, PACKET_MMAP, AF_XDP,
-- verbs, DPDK and EtherFabric are here.
--
-- The files. Prelude: shared names, Boolean tests, lists over native numbers, machine words. Bits:
-- bit operations at variables. Bytes: memory as byte lists (memcpy, storeU, loadU, htonl of
-- src/app/SingleRecorder.hpp). Ring: cursors round a ring. Frame: the frame of
-- src/app/SingleRecorder.hpp, as TxThread::run writes it and RxThread::run reads it. AntiReplay: struct
-- AntiReplay. Recorder.Pacing: the deadlines of TxThread::run. Recorder.Tx: TxThread::run
-- with its size guard. Recorder.Rx: RxThread::run and inWarmup;
-- one turn of the loop is rx_step over what the poll meets. Recorder.Hist: HistThread::run of
-- src/app/HistThread.hpp. App.Client, App.Server and App.Traffic: run_client of
-- src/app/Client.hpp, run_server of src/app/Server.hpp, run_txgen of src/app/TxGenerator.hpp and
-- run_rxsink of src/app/RxSink.hpp. Recorder.Queue: the interface of rigtorp::SPSCQueue. I210.Tx, I210.Rx and I210.Regs:
-- the transmit ring, the receive ring and the register accesses of
-- src/backends/IGBCustomPMD/Intel_I210.hpp, with the layouts of I210Registers.hpp.
--
-- PacketMmap.Tx and PacketMmap.Rx: the rings of src/backends/PacketMmap/PacketMmapTx.hpp,
-- PacketMmapTx.cpp and PacketMmapRx.hpp, over slot numbers. Verbs.Tx and
-- Verbs.Rx: the queues of src/backends/Verbs/Verbs.hpp. AfXdp: the frames of
-- src/backends/AF_XDP/AFXDP.hpp. Dpdk.Rx and Dpdk.Tx: the
-- buffers of src/backends/DPDK/DPDK.hpp. EtherFabric: the time stamps, the event queue (Events), the two transmit
-- paths (Send, Ctpio) and the receive calls (Receive) of
-- src/backends/EtherFabricVirtualInterface/EtherFabricVirtualInterface.hpp.
-- Napi: the netlink messages and the single channel of src/backends/common/NapiConfig.hpp. Pci: the register work of src/backends/common/PciHelpers.hpp.
--
-- Action: steps that change a state and may fail, for the set-up code. Strings: searches in texts.
-- Dpdk.Eal: src/backends/DPDK/DPDKEal.cpp, the devices offered to DPDK and its one start. Dpdk.Setup: the
-- set-up, link wait and shutdown of a port of src/backends/DPDK/DPDK.hpp. Dpdk.Setup.Pair: the DPDK part of
-- src/app/TransportTraits.hpp, with two ports in one process. Dispatch: src/app/TransportDispatch.hpp. AfXdp.Setup:
-- init, shutdown and the moves of src/backends/AF_XDP/AFXDP.hpp. The calls of the kernel, of DPDK and of other
-- helpers are data; a process holds the calls made, and an environment answers each after those before it.
--
-- Conventions. A load or a store outside its buffer is `none`. Unsigned words wrap where the source's do.
-- Loops are structural: over the polls, over the descriptors in flight, over the count that bounds the
-- loop in the source (100 register polls, the answers of a retried call), so no fuel is added. Ring sizes are powers
-- of two in the source, so a mask is a remainder; nothing asserts it of the verbs receive queue, where the
-- mask is kept.
--
-- Not modelled: time and sleeping, messages, the memory model of the atomics (a step is atomic), prefetches
-- and barriers, HdrHistogram, the DMA and PCI libraries (physical addresses and registers are
-- parameters), the set-up of verbs and EtherFabric, the tuning of the
-- host (src/backends/common/NicTuner.cpp), the configuration file and the
-- command line.
pub mod Action
pub mod AfXdp
pub mod AntiReplay
pub mod App
pub mod Bits
pub mod Bytes
pub mod Dispatch
pub mod Dpdk
pub mod EtherFabric
pub mod Frame
pub mod I210
pub mod Napi
pub mod PacketMmap
pub mod Pci
pub mod Prelude
pub mod Recorder
pub mod Ring
pub mod Strings
pub mod Verbs
