-- ===== src/Tests/Net.antt =====
-- The network driver and the packet counters at concrete inputs.
use linux_driver.Base.{is_neg, true, ◌⊎◌, ◌++◌}
use linux_driver.Base.{◌≡◌, refl, pos, negsuc, some, none, [], ◌∷◌, arith, replicate}
use linux_driver.NetDevice
use linux_driver.NetDevice.{my_net_probe, my_net_remove}
use linux_driver.Kernel.{AllOrNothing}
use linux_driver.NetDevice.Load.{probed, my_net_remove-my_net_probe}
use linux_driver.Sys2.Packet.{SkBuff, Stats, packet_hook}
use linux_driver.Sys2.Packet.Counting.{HasRoom, Counted, run_hook, run_hook-Counted}

abbrev net_answers : NetDevice.Answers
net_answers = record { netdev = some 40; registered = pos 0; enabled = pos 0 }

abbrev net_no_pci : NetDevice.Answers
net_no_pci = record net_answers { enabled = negsuc 4 }

abbrev pci_dev : NetDevice.PciDev
pci_dev = record { pdev = 2; irq = 11; drvdata = none }

my_net_remove-my_net_probe_example :
    let r = my_net_probe net_answers pci_dev [] in
    AllOrNothing (probed 2) [] r
    × ((is_neg r.ret ≡ true) ⊎ ((r.ret ≡ pos 0) × (my_net_remove pci_dev r.log ≡ none)))
my_net_remove-my_net_probe_example =
    my_net_remove-my_net_probe net_answers pci_dev [] refl refl refl refl

abbrev no_packets : Stats
no_packets = record {
  vlan_stats = replicate 4094 0;
  ip_packets = 0;
  tcp_packets = 0;
  udp_packets = 0;
  icmp_packets = 0;
  other_packets = 0;
}

-- An IPv4 packet that carries TCP, and one with a tag for VLAN 2.
abbrev tcp_packet : SkBuff
tcp_packet = record {
  protocol = 0x0800;
  vlan_tci = 0;
  head = replicate 9 0 ++ (6 ∷ []);
  data_start = 0;
  network_header = 0;
}

abbrev tagged_packet : SkBuff
tagged_packet = record tcp_packet { protocol = 0x8100; vlan_tci = 0x2002 }

two_packets : HasRoom 2 no_packets
two_packets = record {
  ip = omega arith;
  tcp = omega arith;
  udp = omega arith;
  icmp = omega arith;
  other = omega arith;
}

run_hook-Counted_example :
    Counted
      (tcp_packet ∷ tagged_packet ∷ [])
      no_packets
      (run_hook (tcp_packet ∷ tagged_packet ∷ []) no_packets)
run_hook-Counted_example = run_hook-Counted (tcp_packet ∷ tagged_packet ∷ []) no_packets two_packets

tcp_counted : (packet_hook tcp_packet no_packets).2.tcp_packets ≡ 1
unfolding packet_hook
tcp_counted = refl
